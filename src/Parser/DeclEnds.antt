-- ===== src/Parser/DeclEnds.antt =====
-- internal/parser/parser.go: the parser comes to an end at every text.
use ccomp.Base.{ℕ, suc, ◌≡◌, ◌⊎◌, refl, not, List, [], ◌∷◌, ◌++◌, inl, inr, arith, length}
use ccomp.Base.Text.{Text}
use ccomp.Parser.Number.{parse_int}
use ccomp.Ast.{BasicType, Decl, Param, StructField, EnumValue}
use ccomp.Lexer
use ccomp.Lexer.Token.{Token, TokenType, Unicode}
use ccomp.Lexer.Stream.{tokens}
use ccomp.Parser.{Parser, Error, ok, err, ◌>>◌, tok_is, next, left}
use ccomp.Parser.Within.{
  done, failed, Eats, Keeps, Takes, Within-if, Within-bind, Eats-then, keeps_then, eats_keeps,
  pure-Keeps, type_eq-eof, advance-left, run-Takes, run_then-Keeps, next_then, Within-tok,
  Within-is, expect-Eats, while-Keeps, stars-Keeps, Within-cases, while-ends, left-eof,
}
use ccomp.Parser.SimpleEnds.{expect-Keeps, last, array_size-Takes}
use ccomp.Parser.Stmt.{parse_stmt}
use ccomp.Parser.StmtEnds.{parse_block-Eats, parse_stmt-Eats}
use ccomp.Parser.Decl.{
  int_or_char, one_param, parse_params, one_field, in_braces, parse_struct_decl, enum_comma,
  enum_value, one_value, parse_enum_decl, parse_typedef_decl, initializer, global_init, parse_func,
  parse_typed, decl_by, parse_decl, one_decl, parse_decls, parser_at, parse_file,
}

int_or_char-Eats : {k : ℕ} (e : Token → Error) → Eats k (int_or_char e)
unfolding int_or_char
int_or_char-Eats e p l =
    Within-tok (TokenType.kw_int ∷ TokenType.kw_char ∷ []) p (refl, (refl, tt))
      (λ t. done (advance-left p t)) failed

one_param-Eats : {k : ℕ} (ps : List Param) → Eats k (one_param ps)
unfolding one_param
one_param-Eats ps = Eats-then (int_or_char-Eats Error.bad_param) λ b.
    keeps_then stars-Keeps λ s. keeps_then (expect-Keeps TokenType.ident refl) λ n. pure-Keeps _

parse_params-Keeps : {k : ℕ} → Keeps k parse_params
unfolding parse_params
parse_params-Keeps p l =
    Within-if (tok_is TokenType.rparen p) (λ _. done {p = p} (omega arith))
      λ _.
        keeps_then (eats_keeps (one_param-Eats []))
          (λ ps.
            while-Keeps (tok_is TokenType.comma) (λ qs. next >> one_param qs)
              (λ qs q m t.
                run-Takes q (next_then (eats_keeps (one_param-Eats qs)))
                  (type_eq-eof q.tok.type TokenType.comma t refl))
              ps)
          p l

one_field-Eats : {k : ℕ} (fs : List StructField) → Eats k (one_field fs)
unfolding one_field
one_field-Eats fs = Eats-then (int_or_char-Eats Error.bad_field) λ b.
    keeps_then stars-Keeps
      λ s. keeps_then (expect-Keeps TokenType.ident refl) λ n. last TokenType.semi refl _

parse_struct_decl-Eats : {k : ℕ} → Eats k parse_struct_decl
unfolding parse_struct_decl
parse_struct_decl-Eats = Eats-then (expect-Eats TokenType.kw_struct refl) λ _.
    keeps_then (expect-Keeps TokenType.ident refl) λ n.
      keeps_then (expect-Keeps TokenType.lbrace refl) λ _.
        keeps_then (while-Keeps in_braces one_field (λ fs p l _. one_field-Eats fs p l) [])
          λ fs. keeps_then (expect-Keeps TokenType.rbrace refl) λ _. last TokenType.semi refl _

enum_comma-Keeps : {k : ℕ} → Keeps k enum_comma
enum_comma-Keeps p l =
    Within-is TokenType.comma p refl (λ t. done (omega (arith, advance-left p t)))
      (Within-if (tok_is TokenType.rbrace p) (λ _. done {p = p} (omega arith)) (λ _. failed))

enum_value-Keeps : {k : ℕ} (lex : Text) → Keeps k (enum_value lex)
enum_value-Keeps lex p l =
    let (v, bad) = parse_int lex in Within-if bad (λ _. failed) (λ _. done {p = p} (omega arith))

one_value-Eats : {k : ℕ} (vs : List EnumValue) → Eats k (one_value vs)
unfolding one_value
one_value-Eats vs = Eats-then (expect-Eats TokenType.ident refl) λ n.
    keeps_then (expect-Keeps TokenType.assign refl) λ _.
      keeps_then (expect-Keeps TokenType.int refl)
        λ t. keeps_then (enum_value-Keeps t.lex) λ v. keeps_then enum_comma-Keeps λ _. pure-Keeps _

parse_enum_decl-Eats : {k : ℕ} → Eats k parse_enum_decl
unfolding parse_enum_decl
parse_enum_decl-Eats = Eats-then (expect-Eats TokenType.kw_enum refl) λ _.
    keeps_then (expect-Keeps TokenType.ident refl) λ n.
      keeps_then (expect-Keeps TokenType.lbrace refl) λ _.
        keeps_then (while-Keeps in_braces one_value (λ fs p l _. one_value-Eats fs p l) [])
          λ fs. keeps_then (expect-Keeps TokenType.rbrace refl) λ _. last TokenType.semi refl _

parse_typedef_decl-Eats : {k : ℕ} → Eats k parse_typedef_decl
unfolding parse_typedef_decl
parse_typedef_decl-Eats = Eats-then (expect-Eats TokenType.kw_typedef refl) λ _.
    keeps_then (eats_keeps (int_or_char-Eats Error.bad_typedef)) λ b.
      keeps_then stars-Keeps
        λ s. keeps_then (expect-Keeps TokenType.ident refl) λ n. last TokenType.semi refl _

initializer-Keeps : {k : ℕ} → Keeps k initializer
unfolding initializer
initializer-Keeps p l =
    Within-is TokenType.int p refl (λ t. done (omega (arith, advance-left p t))) failed

global_init-Keeps : {k : ℕ} → Keeps k global_init
unfolding global_init
global_init-Keeps p l =
    Within-is TokenType.assign p refl (run_then-Keeps p (next_then initializer-Keeps))
      (done {p = p} (omega arith))

module _ (parse_float : Text → ℕ) where
  parse_func-Takes :
      {k : ℕ} (name : Text) (bt : BasicType) → Takes (suc k) (parse_func parse_float name bt)
  unfolding parse_func
  parse_func-Takes {k} name bt = next_then (
      keeps_then parse_params-Keeps λ ps. keeps_then (expect-Keeps TokenType.rparen refl) λ _.
        keeps_then
          (λ p l.
            eats_keeps
              (parse_block-Eats parse_float k (parse_stmt parse_float)
                (parse_stmt-Eats parse_float))
              p (omega (arith, l)))
          λ b. pure-Keeps _)

  parse_typed-Eats : {k : ℕ} → Eats k (parse_typed parse_float)
  unfolding parse_typed
  parse_typed-Eats = Eats-then (int_or_char-Eats Error.bad_decl) λ bt. keeps_then stars-Keeps λ ptr.
      keeps_then (expect-Keeps TokenType.ident refl) λ n p l.
        Within-is TokenType.lparen p refl (run_then-Keeps p (parse_func-Takes n.lex bt)) (
          Within-is TokenType.lbrack p refl
            (λ t. Within-bind (run_then-Keeps p array_size-Takes t) λ v q m. done {p = q} m)
            (keeps_then global_init-Keeps (λ i. last TokenType.semi refl _) p l))

  decl_by-Eats : {k : ℕ} (t : TokenType) → Eats k (decl_by parse_float t)
  unfolding decl_by
  decl_by-Eats TokenType.kw_struct = parse_struct_decl-Eats
  decl_by-Eats TokenType.kw_enum = parse_enum_decl-Eats
  decl_by-Eats TokenType.kw_typedef = parse_typedef_decl-Eats
  decl_by-Eats _ = parse_typed-Eats

  parse_decl-Eats : {k : ℕ} → Eats k (parse_decl parse_float)
  unfolding parse_decl
  parse_decl-Eats p l = decl_by-Eats p.tok.type p l

  parse_decls-Keeps : {k : ℕ} → Keeps k (parse_decls parse_float)
  unfolding parse_decls
  parse_decls-Keeps =
      while-Keeps (λ p. not (tok_is TokenType.eof p)) (one_decl parse_float)
        (λ ds p l _. Eats-then parse_decl-Eats (λ d. pure-Keeps (ds ++ d ∷ [])) p l) []

  -- The parser comes to an end at every text, with an error or with a list of declarations, and in
  -- the second case it is at the end of the text.
  pub parse_file_total :
      (u : Unicode) (src : Text)
      → ((e : Error) × (parse_file parse_float u src ≡ err e))
        ⊎ ((ds : List Decl) × (p : Parser) × (parse_file parse_float u src ≡ ok ds p)
            × (left p ≡ 0))
  unfolding parse_file parse_decls
  parse_file_total u src =
      let p = parser_at (tokens u (suc (length src)) (Lexer.start src)) in
      elim (Within-cases (parse_decls parse_float p)
        (parse_decls-Keeps {k = suc (left p)} p (omega arith))) [
          | inl h ↦ inl h
          | inr (ds, q, e) ↦
              let t =
                while-ends (λ p. not (tok_is TokenType.eof p)) (one_decl parse_float) [] p ds q e in
              inr (ds, q, e, left-eof q (ground (arith, t)))
        ]
