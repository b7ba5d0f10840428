-- ===== src/Codegen/Emit/Div.antt =====
-- internal/codegen/x86_64/emit.go, the signed division: the quotient is right, and %rdx is lost.
use ccomp.Base.{ℕ, ◌≡◌, refl, ap, ◌∙◌, true, false, List, [], ◌∷◌, some, ==_iff, if_true}
use ccomp.Base.Int.{ℤ}
use ccomp.Base.Word
use ccomp.Ir.{Instr}
use ccomp.Codegen.Reg.{Reg}
use ccomp.Codegen.Ra.{Allocation}
use ccomp.Codegen.Asm.{Asm, Operand, Machine, read, write, set_reg, sign_word, divide, step, exec}
use ccomp.Codegen.Emit.{rax, rcx, home, const_or_home, finish, emit_div}
use ccomp.Codegen.Emit.Place.{same, read-write, read-write_other, exec-∷, exec-append, exec-mov}
use ccomp.Codegen.Emit.Unary.{in_home-IsPlace}

abbrev pub rdx : Operand
rdx = Operand.reg Reg.rdx

-- The machine after `mov`, `mov` and `cqo`, and after `idiv`.
abbrev prepared : ℕ → ℕ → Machine → Machine
prepared a c m = set_reg Reg.rdx (sign_word a) (set_reg Reg.rcx c (set_reg Reg.rax a m))

abbrev divided : ℕ → ℕ → Machine → Machine
divided a c m =
    set_reg Reg.rdx (Word.sub a (Word.mul c (Word.sdiv a c)))
      (set_reg Reg.rax (Word.sdiv a c) (prepared a c m))

divide-prepared :
    (a c : ℕ) (m : Machine)
    → Word.div_defined a c ≡ true
    → divide c (prepared a c m) ≡ some (divided a c m)
divide-prepared a c m h = if_true _ ((==_iff (sign_word a) (sign_word a)).1 refl) ∙ if_true _ h

div_line :
    (x y : Operand) (m : Machine)
    → same rax y ≡ false
    → Word.div_defined (read x m) (read y m) ≡ true
    → exec (Asm.mov x rax ∷ Asm.mov y rcx ∷ Asm.cqo ∷ Asm.idiv Reg.rcx ∷ []) m
      ≡ some (divided (read x m) (read y m) m)
unfolding exec step
div_line x y m h d =
    let a = read x m in
    let c = read y m in
    let n1 = set_reg Reg.rax a m in
    let n2 = set_reg Reg.rcx c n1 in
    let to_rcx : step (Asm.mov y rcx) n1 ≡ some n2 =
      ap (λ z. some (set_reg Reg.rcx z n1)) (read-write_other rax y a m h) in
    let rest = Asm.cqo ∷ Asm.idiv Reg.rcx ∷ [] in
    exec-∷ (Asm.mov x rax) (Asm.mov y rcx ∷ rest) m n1 _ refl (
      exec-∷ (Asm.mov y rcx) rest n1 n2 _ to_rcx (
        exec-∷ Asm.cqo (Asm.idiv Reg.rcx ∷ []) n2 (prepared a c m) _ refl (
          exec-∷ (Asm.idiv Reg.rcx) [] (prepared a c m) (divided a c m) _ (divide-prepared a c m d)
            refl)))

-- The code of a division that C defines, whose divisor is not in %rax, runs to its end and leaves the
-- quotient in the home of the result, and any other register or slot as it was but %rax, %rcx and
-- %rdx.
pub exec-emit_div :
    (alloc : Allocation) (b : List Instr) (res x y : ℤ) (m : Machine) (o : Operand)
    → same rax (const_or_home alloc b y) ≡ false
    → Word.div_defined (read (home alloc x) m) (read (const_or_home alloc b y) m) ≡ true
    → same (home alloc res) o ≡ false
    → same rax o ≡ false
    → same rcx o ≡ false
    → same rdx o ≡ false
    → (n : Machine) × (exec (emit_div alloc b res x y) m ≡ some n)
      × (read (home alloc res) n
          ≡ Word.sdiv (read (home alloc x) m) (read (const_or_home alloc b y) m))
      × (read o n ≡ read o m)
unfolding emit_div finish home
exec-emit_div alloc b res x y m o h d a e c g =
    let l = home alloc x in
    let r = const_or_home alloc b y in
    let k = divided (read l m) (read r m) m in
    let q = Word.sdiv (read l m) (read r m) in
    let out = home alloc res in
    (
      write out q k,
      exec-append (Asm.mov l rax ∷ Asm.mov r rcx ∷ Asm.cqo ∷ Asm.idiv Reg.rcx ∷ [])
          (Asm.mov rax out ∷ []) m k _ (div_line l r m h d) (exec-mov rax out k),
      read-write out q k (in_home-IsPlace (alloc res) res),
      read-write_other out o q k a
          ∙ (read-write_other rdx o _ (set_reg Reg.rax q (prepared (read l m) (read r m) m)) g
              ∙ (read-write_other rax o q (prepared (read l m) (read r m) m) e
                  ∙ (read-write_other rdx o (sign_word (read l m))
                        (set_reg Reg.rcx (read r m) (set_reg Reg.rax (read l m) m)) g
                      ∙ (read-write_other rcx o (read r m) (set_reg Reg.rax (read l m) m) c
                          ∙ read-write_other rax o (read l m) m e)))),
    )
