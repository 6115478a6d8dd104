-- ===== src/Types/Parse.antt =====
-- The parser's state, and the checks of enabled features. An error ends the parse and its state is
-- the module that `wah_parse_module` then frees, so only `required_features` of it is read later.
use wah.Base.{
  ℕ, ◌^◌, ◌+◌, Bool, true, false, ◌||◌, not, ◌==◌, if◌then◌else◌, bit_and, bit_or, List, [], ◌∷◌,
}
use wah.Base.Int.{pos, negsuc, ◌==ℤ◌}
use wah.Status.{Error, Result, ok, err, disabled_feature, unexpected_eof}
use wah.Leb128.{Decoded}
use wah.Types.{
  WahType, FuncType, TypeDef, is_ref, is_nullable, as_nullable, v128, exn, noexn, func, extern,
}

-- The part of `wah_module_t` that the type and function sections fill.
pub record Module : Type 0 where
  pub enabled_features : ℕ
  pub required_features : ℕ
  pub types : List FuncType
  pub type_defs : List TypeDef
  pub types_cap : ℕ
  pub function_type_indices : List ℕ

-- `*ptr` up to the end of the section, with the module.
pub record ParseState : Type 0 where
  pub input : List ℕ
  pub module_ : Module

abbrev pub Parse : Type 0 → Type 0
Parse A = ParseState → Result A × ParseState

abbrev pub pure : {A : Type 0} → A → Parse A
pure a s = (ok a, s)

abbrev pub fail : {A : Type 0} → Error → Parse A
fail e s = (err e, s)

abbrev pub and_then : {A B : Type 0} → Result A × ParseState → (A → Parse B) → Result B × ParseState
and_then (ok a, s) f = f a s
and_then (err e, s) f = (err e, s)

infixl 5 ◌>>=◌ ◌>>◌
abbrev pub ◌>>=◌ : {A B : Type 0} → Parse A → (A → Parse B) → Parse B
◌>>=◌ m f s = and_then (m s) f

abbrev pub ◌>>◌ : {A B : Type 0} → Parse A → Parse B → Parse B
m >> k = m >>= λ _. k

abbrev pub ensure : Bool → Error → Parse (Unit {0})
ensure true e s = (ok tt, s)
ensure false e s = (err e, s)

abbrev pub advance : {A : Type 0} → Decoded A → Parse A
advance (ok (a, rest)) s = (ok a, record s { input = rest })
advance (err e) s = (err e, s)

-- A decoder of LEB128 at the current position.
abbrev pub decode : {A : Type 0} → (List ℕ → Decoded A) → Parse A
decode d s = advance (d s.input) s

abbrev pub first_byte : List ℕ → Decoded ℕ
first_byte [] = err unexpected_eof
first_byte (b ∷ bs) = ok (b, bs)

-- WAH_ENSURE(*ptr < end, …) and `*(*ptr)++`
abbrev pub next_byte : Parse ℕ
next_byte = decode first_byte

abbrev pub peeked : List ℕ → Decoded ℕ
peeked [] = err unexpected_eof
peeked (b ∷ bs) = ok (b, b ∷ bs)

-- WAH_ENSURE(*ptr < end, …) and `**ptr`
abbrev pub peek_byte : Parse ℕ
peek_byte = decode peeked

-- `wah_feature_closure`
unfoldable pub feature_closure : ℕ → ℕ
feature_closure f =
    let f1 = if bit_and f (2 ^ 13) == 0 then f else bit_or f (2 ^ 7) in
    let f2 = if bit_and f1 (2 ^ 10 + 2 ^ 11) == 0 then f1 else bit_or f1 (2 ^ 6) in bit_or f2 1

abbrev pub shift_ref_types : ℕ
shift_ref_types = 6

abbrev pub shift_simd : ℕ
shift_simd = 7

abbrev pub shift_exception : ℕ
shift_exception = 9

abbrev pub shift_gc : ℕ
shift_gc = 10

abbrev pub shift_typed_funcref : ℕ
shift_typed_funcref = 11

abbrev pub shift_multi_memory : ℕ
shift_multi_memory = 15

unfoldable pub require_feature : ℕ → Parse (Unit {0})
require_feature shift s =
    let m = s.module_ in
    let s' = record s {
      module_ = record m { required_features = bit_or m.required_features (2 ^ shift) };
    } in
    if shift == 0
    then (ok tt, s)
    else if bit_and m.enabled_features (2 ^ shift) == 0
    then (err disabled_feature, s')
    else (ok tt, s')

abbrev is_negative : WahType → Bool
is_negative (pos n) = false
is_negative (negsuc n) = true

unfoldable pub require_type_features : WahType → Parse (Unit {0})
unfolding require_feature
require_type_features t =
    if t ==ℤ v128 then require_feature shift_simd else if not (is_ref t) then pure tt else do
      if not (is_negative t) || not (is_nullable t)
          then require_feature shift_typed_funcref
          else pure tt
      if as_nullable t ==ℤ as_nullable exn || as_nullable t ==ℤ as_nullable noexn
          then require_feature shift_exception
          else do
            if as_nullable t ==ℤ as_nullable func || as_nullable t ==ℤ as_nullable extern
                then pure tt
                else (if is_negative t then require_feature shift_gc else pure tt)
            require_feature shift_ref_types
