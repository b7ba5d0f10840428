-- ===== src/Ir/Build/Operand.antt =====
-- internal/ir/ir.go, buildExprWithType: names, and sums and differences of two values.
use ccomp.Base.{
  ℕ, suc, Bool, true, false, ◌&&◌, ◌||◌, not, List, [], ◌∷◌, ◌++◌, Option, none, some, ◌==◌, ltb,
  if◌then◌else◌, length,
}
use ccomp.Base.Text.{Text, codes, text_eq}
use ccomp.Types.{Kind, CType, int, double_t, is_pointer, elem_size, is_float, k}
use ccomp.Ir.{Op, Global}
use ccomp.Ir.Phi.{decimal}
use ccomp.Ir.Build.{
  lookup, Ctx, BuildError, Built, Build, built, out_of_fuel, ◌>>=◌, pure, fail, new_value, add,
  iconst, global_addr,
}
use ccomp.Ir.Build.Read.{found, undefined, exhausted}
use ccomp.Ir.Build.Read.{Found, read_var}

-- A value with its type.
abbrev pub Typed : Type 0
Typed = ℕ × CType

abbrev pub typed : CType → Build ℕ → Build Typed
typed t m = do v ← m; pure (v, t)

-- The type of a variable, `int` where the zero value of `Type` stands for none.
abbrev pub is_zero_kind : Kind → Bool
is_zero_kind Kind.int8 = true
is_zero_kind _ = false

abbrev pub or_int : Option CType → CType
or_int none = int
or_int (some t) = if is_zero_kind (k t) then int else t

unfoldable pub var_type : Text → Ctx → CType
unfolding lookup
var_type name c = or_int (lookup name c.var_types)

-- The first global of the name; `find_array` wants an array.
unfoldable pub find_global : Text → List Global → Option Global
find_global name [] = none
find_global name (g ∷ gs) = if text_eq g.name name then some g else find_global name gs

unfoldable pub find_array : Text → List Global → Option Global
find_array name [] = none
find_array name (g ∷ gs) = if text_eq g.name name && g.array then some g else find_array name gs

abbrev pub known_label : Text → Option Text → Build Text
known_label s (some lbl) = pure lbl
known_label s none = λ c.
    let n = length c.m.str_lits in
    let lbl = codes ".Lstr" ++ decimal (suc n) n in
    built lbl (record c {
      str_labels = (s, lbl) ∷ c.str_labels;
      m = record c.m { str_lits = c.m.str_lits ++ record { name = lbl; bytes = s } ∷ [] };
    })

unfoldable pub intern_string : Text → Build Text
unfolding lookup decimal
intern_string s c = known_label s (lookup s c.str_labels) c

-- The operation on a byte or on a word, by the size of what is addressed.
abbrev pub load_op : ℕ → Op
load_op n = if n == 1 then Op.load8 else Op.load

-- A name that is no variable.
abbrev pub of_enum : Text → Option ℕ → Build Typed
of_enum name none = fail (BuildError.undefined_variable name)
of_enum name (some v) = typed int (iconst v)

abbrev pub of_global : Text → Option Global → Build Typed
of_global name none = λ c. of_enum name (lookup name c.m.enum_constants) c
of_global name (some g) = do
  addr ← global_addr (g.name)
  typed int (add (load_op g.elem_size) (addr ∷ []))

abbrev pub of_found : Text → Found × Ctx → Built Typed
of_found name (found v, c) = built (v, var_type name c) c
of_found name (undefined, c) = of_global name (find_global name c.m.globals) c
of_found name (exhausted, c) = out_of_fuel

unfoldable pub build_ident : Text → Build Typed
unfolding read_var var_type find_global lookup new_value
build_ident name c = of_found name (read_var name c.b c)

-- A value times the size of an element, where that is more than 1.
unfoldable pub scaled : ℕ → ℕ → Build ℕ
unfolding new_value
scaled sz v = if ltb 1 sz then (do s ← iconst sz; add Op.mul (v ∷ s ∷ [])) else pure v

abbrev pub float_or : Op → Op → ℕ → ℕ → CType → CType → Build Typed
float_or fop op l r lt rt =
    if is_float lt || is_float rt
    then typed double_t (add fop (l ∷ r ∷ []))
    else typed int (add op (l ∷ r ∷ []))

unfoldable pub build_add : ℕ → ℕ → CType → CType → Build Typed
unfolding scaled new_value is_float is_pointer elem_size
build_add l r lt rt =
    if is_float lt || is_float rt
    then typed double_t (add Op.fadd (l ∷ r ∷ []))
    else if is_pointer lt && not (is_pointer rt)
    then (do s ← scaled (elem_size lt) r; typed lt (add Op.add (l ∷ s ∷ [])))
    else if is_pointer rt && not (is_pointer lt)
    then (do s ← scaled (elem_size rt) l; typed rt (add Op.add (s ∷ r ∷ [])))
    else typed int (add Op.add (l ∷ r ∷ []))

-- The difference of two pointers in elements.
abbrev pub in_elements : ℕ → ℕ → Build ℕ
in_elements sz diff = if ltb 1 sz then (do d ← iconst sz; add Op.div (diff ∷ d ∷ [])) else pure diff

unfoldable pub build_sub : ℕ → ℕ → CType → CType → Build Typed
unfolding scaled new_value is_float is_pointer elem_size
build_sub l r lt rt =
    if is_float lt || is_float rt
    then typed double_t (add Op.fsub (l ∷ r ∷ []))
    else if is_pointer lt && not (is_pointer rt)
    then (do s ← scaled (elem_size lt) r; typed lt (add Op.sub (l ∷ s ∷ [])))
    else if is_pointer lt && is_pointer rt
    then (do diff ← add Op.sub (l ∷ r ∷ []); typed int (in_elements (elem_size lt) diff))
    else typed int (add Op.sub (l ∷ r ∷ []))

abbrev pub plain : Op → ℕ → ℕ → Build Typed
plain op l r = typed int (add op (l ∷ r ∷ []))
