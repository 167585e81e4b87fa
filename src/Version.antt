-- ===== src/Version.antt =====
-- `version` of rte/src/common/version.rs. The numbers and the texts of the DPDK release are those of the
-- bindings.
use rust_dpdk.Prelude.{
  ℕ, ◌-◌, ◌≡◌, List, [], ◌∷◌, ◌++◌, Bool, true, false, if◌then◌else◌, ltb, refl, ap,
}
use rust_dpdk.Outcome.{Outcome, done, halted, panicked, ◌>>=◌}
use rust_dpdk.Text.{codes}
use rust_dpdk.Text.Decimal.{decimal}

-- The constants `RTE_VER_*`; the bytes of a text end in a zero.
pub record Release : Type 0 where
  pub ver_prefix : List ℕ
  pub ver_suffix : List ℕ
  pub ver_year : ℕ
  pub ver_month : ℕ
  pub ver_minor : ℕ
  pub ver_release : ℕ

unfoldable pub is_empty : List ℕ → Bool
is_empty [] = true
is_empty (c ∷ s) = false

-- The bytes of a `CStr`: all but the last.
unfoldable pub to_bytes : List ℕ → List ℕ
to_bytes [] = []
to_bytes (c ∷ []) = []
to_bytes (c ∷ e ∷ s) = c ∷ to_bytes (e ∷ s)

-- `CStr::to_str` and its `unwrap`, as for `RTE_VER_PREFIX` and `RTE_VER_SUFFIX`.
unfoldable pub ver_text : (List ℕ → Bool) → List ℕ → Outcome (List ℕ)
unfolding to_bytes
ver_text utf8 bytes = if utf8 (to_bytes bytes) then done (to_bytes bytes) else halted panicked

-- `{:02}`.
unfoldable pub two_digits : ℕ → List ℕ
unfolding decimal
two_digits n = if ltb n 10 then 48 ∷ decimal n else decimal n

-- The part of the text that both formats have.
unfoldable pub numbers : Release → List ℕ → List ℕ
unfolding two_digits decimal
numbers r prefix =
    prefix
    ++ codes " "
    ++ decimal r.ver_year
    ++ codes "."
    ++ two_digits r.ver_month
    ++ codes "."
    ++ decimal r.ver_minor

unfoldable pub version : (List ℕ → Bool) → Release → Outcome (List ℕ)
unfolding ver_text numbers decimal is_empty
version utf8 r =
    if is_empty r.ver_suffix
    then (do prefix ← ver_text utf8 r.ver_prefix; done (numbers r prefix))
    else (do
      prefix ← ver_text utf8 r.ver_prefix
      suffix ← ver_text utf8 r.ver_suffix
      done (
          numbers r prefix
          ++ suffix
          ++ decimal (if ltb r.ver_release 16 then r.ver_release else r.ver_release - 16)))

to_bytes-zero : (s : List ℕ) → to_bytes (s ++ 0 ∷ []) ≡ s
unfolding to_bytes
to_bytes-zero [] = refl
to_bytes-zero (c ∷ []) = refl
to_bytes-zero (c ∷ e ∷ s) = ap (λ r. c ∷ r) (to_bytes-zero (e ∷ s))

ended : (s : List ℕ) → is_empty (s ++ 0 ∷ []) ≡ false
unfolding is_empty
ended [] = refl
ended (c ∷ s) = refl

-- For texts that end in a zero, as those of the bindings do, the format without a release is never taken:
-- the text of the version ends in the suffix and the release, also where the suffix has no character.
pub version-long :
    (utf8 : List ℕ → Bool) (r : Release) (prefix suffix : List ℕ)
    → r.ver_prefix ≡ prefix ++ 0 ∷ []
    → r.ver_suffix ≡ suffix ++ 0 ∷ []
    → utf8 prefix ≡ true
    → utf8 suffix ≡ true
    → version utf8 r
      ≡ done (
          numbers r prefix
          ++ suffix
          ++ decimal (if ltb r.ver_release 16 then r.ver_release else r.ver_release - 16))
unfolding version ver_text
version-long utf8 r prefix suffix p s up us =
    simp (p, s, ended suffix, to_bytes-zero prefix, to_bytes-zero suffix, up, us)
