-- ===== src/Ir/Build/Typing.antt =====
-- internal/ir/ir.go, buildExprWithType: the types of binary expressions.
use ccomp.Base.{ℕ, ◌≡◌, refl, subst, arith, Bool, true, false, ◌&&◌, ◌||◌, not, if◌then◌else◌}
use ccomp.Types.{Kind, CType, leaf, node, k, int, double_t, is_pointer, is_float}
use ccomp.Ast.{BinOp}
use ccomp.Ir.Build.{Ctx, Built, built, error, out_of_fuel, Build, bind, ◌>>=◌}
use ccomp.Ir.Build.Read.{Order}
use ccomp.Ir.Build.Expr.{build_binary}
use ccomp.Ir.Build.Operand.{Typed, typed, build_add, build_sub}

-- The kinds of operands that the typing rules of C tell apart.
pub data Sort : Type 0 where
  number floating pointer : Sort

abbrev sort_of_kind : Kind → Sort
sort_of_kind Kind.float32 = Sort.floating
sort_of_kind Kind.float64 = Sort.floating
sort_of_kind Kind.ptr = Sort.pointer
sort_of_kind _ = Sort.number

abbrev pub sort_of : CType → Sort
sort_of t = sort_of_kind (k t)

pub data Rule : Type 0 where
  a_double the_left the_right an_int : Rule

-- Sums and differences of numbers are numbers, with a floating operand doubles; a pointer plus or
-- minus a number, and a number plus a pointer, have the type of the pointer.
abbrev sum_rule : Sort → Sort → Rule
sum_rule Sort.number Sort.number = Rule.an_int
sum_rule Sort.number Sort.pointer = Rule.the_right
sum_rule Sort.pointer Sort.number = Rule.the_left
sum_rule Sort.pointer Sort.pointer = Rule.an_int
sum_rule _ _ = Rule.a_double

abbrev difference_rule : Sort → Sort → Rule
difference_rule Sort.number Sort.number = Rule.an_int
difference_rule Sort.number Sort.pointer = Rule.an_int
difference_rule Sort.pointer Sort.number = Rule.the_left
difference_rule Sort.pointer Sort.pointer = Rule.an_int
difference_rule _ _ = Rule.a_double

abbrev product_rule : Sort → Sort → Rule
product_rule Sort.floating _ = Rule.a_double
product_rule _ Sort.floating = Rule.a_double
product_rule _ _ = Rule.an_int

abbrev pub rule : BinOp → Sort → Sort → Rule
rule BinOp.add a b = sum_rule a b
rule BinOp.sub a b = difference_rule a b
rule BinOp.mul a b = product_rule a b
rule BinOp.div a b = product_rule a b
rule _ a b = Rule.an_int

abbrev pub ruled : Rule → CType → CType → CType
ruled Rule.a_double lt rt = double_t
ruled Rule.the_left lt rt = lt
ruled Rule.the_right lt rt = rt
ruled Rule.an_int lt rt = int

abbrev pub result_type : BinOp → CType → CType → CType
result_type op lt rt = ruled (rule op (sort_of lt) (sort_of rt)) lt rt

-- The same by the tests that the builder makes.
abbrev guarded : BinOp → CType → CType → CType
guarded BinOp.add lt rt =
    if is_float lt || is_float rt
    then double_t
    else if is_pointer lt && not (is_pointer rt)
    then lt
    else if is_pointer rt && not (is_pointer lt)
    then rt
    else int
guarded BinOp.sub lt rt =
    if is_float lt || is_float rt
    then double_t
    else if is_pointer lt && not (is_pointer rt)
    then lt
    else int
guarded BinOp.mul lt rt = if is_float lt || is_float rt then double_t else int
guarded BinOp.div lt rt = if is_float lt || is_float rt then double_t else int
guarded _ lt rt = int

-- What the tests say of a sort.
abbrev Answers : Sort → CType → Type 0
Answers Sort.number t = (is_float t ≡ false) × (is_pointer t ≡ false)
Answers Sort.floating t = is_float t ≡ true
Answers Sort.pointer t = (is_float t ≡ false) × (is_pointer t ≡ true)

tests : (t : CType) → Answers (sort_of t) t
unfolding is_float is_pointer
tests (leaf Kind.float32) = refl
tests (leaf Kind.float64) = refl
tests (leaf _) = (refl, refl)
tests (node Kind.float32 t) = refl
tests (node Kind.float64 t) = refl
tests (node _ t) = (refl, refl)

guarded-ruled :
    (op : BinOp) (lt rt : CType) (a b : Sort)
    → Answers a lt
    → Answers b rt
    → guarded op lt rt ≡ ruled (rule op a b) lt rt
guarded-ruled BinOp.add lt rt a b h g = ground (arith, h, g)
guarded-ruled BinOp.sub lt rt a b h g = ground (arith, h, g)
guarded-ruled BinOp.mul lt rt a b h g = ground (arith, h, g)
guarded-ruled BinOp.div lt rt a b h g = ground (arith, h, g)
guarded-ruled _ lt rt a b h g = refl

-- The value that is built, if one is, has the type.
abbrev pub HasType : CType → Built Typed → Type 0
HasType t (built v c) = v.1 ≡ t
HasType t (error e) = Unit
HasType t out_of_fuel = Unit

data Gives (t : CType) (m : Build Typed) : Type 0 where
  gives : ((c : Ctx) → HasType t (m c)) → Gives t m

typed-Gives : (t : CType) (m : Build ℕ) → Gives t (typed t m)
typed-Gives t m = gives λ c. of (m c)
  where
    of : (r : Built ℕ) → HasType t (bind r (λ v c. built (v, t) c))
    of (built v c) = refl
    of (error e) = tt
    of out_of_fuel = tt

HasType-bind :
    {A : Type 0} {t : CType} (r : Built A) (f : A → Build Typed)
    → ((a : A) → Gives t (f a))
    → HasType t (bind r f)
HasType-bind (built a c) f h = run (h a) c
  where
    run : {t : CType} {n : Build Typed} → Gives t n → (c : Ctx) → HasType t (n c)
    run (gives k) = k
HasType-bind (error e) f h = tt
HasType-bind out_of_fuel f h = tt

bind-Gives :
    {A : Type 0} {t : CType} (m : Build A) {f : A → Build Typed}
    → ((a : A) → Gives t (f a))
    → Gives t (m >>= f)
bind-Gives m {f} h = gives λ c. HasType-bind (m c) f h

if-Gives :
    (b : Bool) {s t : CType} {m n : Build Typed}
    → Gives s m
    → Gives t n
    → Gives (if b then s else t) (if b then m else n)
if-Gives true k l = k
if-Gives false k l = l

either-Gives :
    (b : Bool) {t : CType} {m n : Build Typed}
    → Gives t m
    → Gives t n
    → Gives t (if b then m else n)
either-Gives true k l = k
either-Gives false k l = l

ruleset gives_rules = (typed-Gives, bind-Gives, if-Gives, either-Gives)

module _ (order : Order) where
  build_binary-Gives :
      (op : BinOp) (l r : Typed) (bl br : Build ℕ)
      → Gives (guarded op l.1 r.1) (build_binary order op l r bl br)
  unfolding build_binary build_add build_sub
  build_binary-Gives BinOp.add l r bl br = search gives_rules
  build_binary-Gives BinOp.sub l r bl br = search gives_rules
  build_binary-Gives _ l r bl br = search gives_rules

  -- Where the value of a binary expression is built, it has the type that the rules give for the
  -- operation and the kinds of the operands: with +, -, * and /, a double wherever an operand is
  -- floating; the pointer's type where a number is added to or taken from a pointer, or a pointer
  -- added to a number; and int for all else, comparisons and bit operations included.
  pub build_binary-HasType :
      (op : BinOp) (l r : Typed) (bl br : Build ℕ) (c : Ctx)
      → HasType (result_type op l.1 r.1) (build_binary order op l r bl br c)
  build_binary-HasType op l r bl br c =
      subst (λ t. HasType t (build_binary order op l r bl br c))
        (guarded-ruled op l.1 r.1 (sort_of l.1) (sort_of r.1) (tests l.1) (tests r.1))
        (of (build_binary-Gives op l r bl br) c)
    where
      of : {t : CType} {n : Build Typed} → Gives t n → (c : Ctx) → HasType t (n c)
      of (gives k) = k
