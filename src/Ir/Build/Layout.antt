-- ===== src/Ir/Build/Layout.antt =====
-- internal/ir/ir.go, BuildModule: the layout of structs.
use ccomp.Base.{ℕ, zero, suc, ◌+◌, ◌≤◌, ◌<◌, ◌≡◌, subst, List, [], ◌∷◌, some, get_elem?, arith}
use ccomp.Ast
use ccomp.Types.{size}
use ccomp.Ir.Build.{StructField}
use ccomp.Ir.Build.Program.{basic_type, layout, struct_of}

-- The fields laid out from an offset on.
abbrev fields_from : ℕ → List Ast.StructField → List StructField
fields_from o fs = (layout o fs).0

-- The first field, and the offset behind it.
abbrev first_field : ℕ → Ast.StructField → StructField
first_field o x = record { name = x.name; type = basic_type x.typ x.ptr; offset = o }

abbrev after : ℕ → Ast.StructField → ℕ
after o x = o + size (basic_type x.typ x.ptr)

layout_end : (o : ℕ) (fs : List Ast.StructField) → o ≤ (layout o fs).1
unfolding layout
layout_end o [] = omega arith
layout_end o (x ∷ fs) = omega (arith, layout_end (after o x) fs)

layout_within :
    (o : ℕ) (fs : List Ast.StructField) (i : ℕ) (f : StructField)
    → get_elem? (fields_from o fs) i ≡ some f
    → (o ≤ f.offset) × (f.offset + size f.type ≤ (layout o fs).1)
unfolding layout
layout_within o [] i f e = cc
layout_within o (x ∷ fs) zero f e =
    let h : first_field o x ≡ f = cc in
    subst (λ f. (o ≤ f.offset) × (f.offset + size f.type ≤ (layout o (x ∷ fs)).1)) h
      (omega arith, layout_end (after o x) fs)
layout_within o (x ∷ fs) (suc i) f e =
    let h = layout_within (after o x) fs i f e in (omega (arith, h.0), h.1)

layout_apart :
    (o : ℕ) (fs : List Ast.StructField) (i j : ℕ) (f g : StructField)
    → get_elem? (fields_from o fs) i ≡ some f
    → get_elem? (fields_from o fs) j ≡ some g
    → i < j
    → f.offset + size f.type ≤ g.offset
unfolding layout
layout_apart o [] i j f g e d h = cc
layout_apart o (x ∷ fs) i zero f g e d h = omega (arith, h)
layout_apart o (x ∷ fs) zero (suc j) f g e d h =
    let k = layout_within (after o x) fs j g d in
    let h : first_field o x ≡ f = cc in subst (λ f. f.offset + size f.type ≤ g.offset) h k.0
layout_apart o (x ∷ fs) (suc i) (suc j) f g e d h =
    layout_apart (after o x) fs i j f g e d (omega (arith, h))

-- Two fields of a struct do not overlap, and each is inside of it.
pub struct_of-apart :
    (fs : List Ast.StructField) (i j : ℕ) (f g : StructField)
    → get_elem? (struct_of fs).fields i ≡ some f
    → get_elem? (struct_of fs).fields j ≡ some g
    → i < j
    → (f.offset + size f.type ≤ g.offset) × (g.offset + size g.type ≤ (struct_of fs).size)
struct_of-apart fs i j f g e d h = (layout_apart 0 fs i j f g e d h, (layout_within 0 fs j g d).1)
