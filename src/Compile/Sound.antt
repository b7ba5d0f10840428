-- ===== src/Compile/Sound.antt =====
-- cmd/ccomp/main.go: what the functions mean whose code the program writes.
use ccomp.Base.{
  ℕ, suc, ◌≡◌, refl, subst, ap, ◌∙◌, List, [], ◌∷◌, map, Option, none, some, length, get_elem?,
  get_elem?-map,
}
use ccomp.Base.Text.{Text}
use ccomp.Ast.{Decl}
use ccomp.Lexer.Token.{Unicode}
use ccomp.Parser
use ccomp.Parser.{Parser}
use ccomp.Parser.Decl.{parse_file}
use ccomp.Ir.{Function}
use ccomp.Ir.Meaning.{World, State, run}
use ccomp.Ir.Opt.{optimize}
use ccomp.Ir.Opt.Dce.{JumpsPlain}
use ccomp.Ir.Opt.DceLoop.{IsSwept}
use ccomp.Ir.Opt.FoldBlock.{BlocksSsa}
use ccomp.Ir.Opt.Optimize.{run-optimize}
use ccomp.Ir.Phi.{phi_eliminate}
use ccomp.Ir.Build.{Module}
use ccomp.Ir.Build.Read.{Order}
use ccomp.Ir.Build.Program.{program, build_module}
use ccomp.Codegen.Emit.Module.{Line, emit_module}
use ccomp.Compile.{Output, or_codegen_error, lowered, emit_program, after_parse, compile}

some_lines :
    (r : Option (List Line)) (ls : List Line)
    → or_codegen_error r ≡ Output.assembly ls
    → r ≡ some ls
some_lines none ls e = cc
some_lines (some ks) ls e = cc

length-map {ℓ} : {A : Type ℓ} (f : A → A) (xs : List A) → length (map f xs) ≡ length xs
length-map f [] = refl
length-map f (x ∷ xs) = ap suc (length-map f xs)

module _ (u : Unicode) (w : World) (parse_float : Text → ℕ) (order : Order) where
  -- What is emitted for a text, after the phases that succeeded.
  emitted :
      (src : Text) (ls : List Line) (ds : List Decl) (p : Parser) (fs : List Function) (m : Module)
      → compile u w.float parse_float order src ≡ Output.assembly ls
      → parse_file parse_float u src ≡ Parser.ok ds p
      → build_module order ds ≡ program fs m
      → emit_module w.float (lowered u w.float parse_float order fs) m.str_lits m.globals ≡ some ls
  unfolding compile emit_program
  emitted src ls ds p fs m c e b =
      let parsed : emit_program u w.float parse_float order (build_module order ds)
          ≡ Output.assembly ls =
        subst (λ r. after_parse u w.float parse_float order r ≡ Output.assembly ls) e c in
      some_lines _ ls
        (subst (λ q. emit_program u w.float parse_float order q ≡ Output.assembly ls) b parsed)

  -- Where the program writes an assembly for a text from which a function was built, whose blocks
  -- are in single assignment and whose jumps have no result, and a run of that function ends, there
  -- is a function that ends from the same block and state, within the same fuel, with the same
  -- value returned and the same memory, in which no dead instruction is left, and the assembly is
  -- what the emitter writes for as many functions as were built, with the one that the elimination
  -- of its phis makes of it in the place of the function built.
  pub compile-run :
      (src : Text) (ls : List Line) (ds : List Decl) (p : Parser) (fs : List Function) (m : Module)
      (n : ℕ) (fn : Function) (fuel k : ℕ) (s : State w) (r : ℕ × w.Memory)
      → compile u w.float parse_float order src ≡ Output.assembly ls
      → parse_file parse_float u src ≡ Parser.ok ds p
      → build_module order ds ≡ program fs m
      → get_elem? fs n ≡ some fn
      → BlocksSsa fn.blocks
      → JumpsPlain fn.blocks
      → run w fuel fn.blocks k s ≡ some r
      → (g : Function) × (run w fuel g.blocks k s ≡ some r)
        × IsSwept g.blocks
        × ((hs : List Function) × (length hs ≡ length fs)
            × (get_elem? hs n ≡ some (phi_eliminate g))
            × (emit_module w.float hs m.str_lits m.globals ≡ some ls))
  unfolding lowered optimize
  compile-run src ls ds p fs m n fn fuel k s r c e b at_n d j ends =
      let (g, found, same, swept) = run-optimize w fs n fn fuel k s r at_n d j ends in
      let opt = optimize w.float fs in
      (
        g,
        same,
        swept,
        (
          map phi_eliminate opt,
          length-map phi_eliminate opt ∙ length-map _ fs,
          get_elem?-map phi_eliminate opt n g found,
          emitted src ls ds p fs m c e b,
        ),
      )
