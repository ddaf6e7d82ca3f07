-- ===== src/Prelude/Texts.antt =====
-- Texts as Python reads them: `None` and the empty text are false.
use Prim.Native.String.{String}
use mathlib.Core.Path.{◌≡◌, refl}
use mathlib.Core.Bool.{Bool, true, false}
use mathlib.Core.Option.{Option, none, some}
use floww_backend.Prelude.Tests.{if◌then◌else◌}
use native.Mathlib.Omega.{arith}
use text.Mathlib.TextEquality.{eq_iff}
pub use text.Mathlib.Text.{◌==◌ as str_eq}

-- `if value:` on an optional text: the text, unless it is missing or empty.
abbrev pub truthy : Option String → Option String
truthy none = none
truthy (some s) = if str_eq s "" then none else some s

-- `column == value` in SQL where both are given: NULL equals nothing.
abbrev pub same_text : Option String → Option String → Bool
same_text none _ = false
same_text (some s) none = false
same_text (some s) (some t) = str_eq s t

pub str_eq_comm : (s t : String) → str_eq s t ≡ str_eq t s
str_eq_comm s t = ground (arith, eq_iff s t, eq_iff t s)

pub same_text_comm : (a b : Option String) → same_text a b ≡ same_text b a
same_text_comm none none = refl
same_text_comm none (some t) = refl
same_text_comm (some s) none = refl
same_text_comm (some s) (some t) = str_eq_comm s t

-- Two columns that equal one text equal each other.
pub same_text_shared :
    (i : String) (a b : Option String)
    → same_text a (some i) ≡ true
    → same_text b (some i) ≡ true
    → same_text a b ≡ true
same_text_shared i none b h k = cc
same_text_shared i (some s) none h k = cc
same_text_shared i (some s) (some t) h k = ground (arith, eq_iff s i, eq_iff t i, eq_iff s t)

pub same_text-eq : (i : String) (a : Option String) → same_text a (some i) ≡ true → a ≡ some i
same_text-eq i none h = cc
same_text-eq i (some s) h = ground (arith, eq_iff s i)

pub same_text_self : (i : String) → same_text (some i) (some i) ≡ true
same_text_self i = ground (arith, eq_iff i i)
