-- ===== src/Compression/Exact.antt =====
-- A compressed certificate is accepted only at its exact length, and one that is not compressed is
-- sent as it is.
use never_fox.Compression.{
  failure, success, aborted, Status, decode_callback, decode_all, finish, decompressor,
}
use never_fox.Nss.{Bytes}
use never_fox.Base.{
  ltb, ◌==◌, Option-cases, length, ℕ, ◌≡◌, inl, inr, Bool, true, false, ◌&&◌, Option, none, some,
  arith,
}

-- Whether the input is there, and decodes to as many bytes as the output has room for.
abbrev pub fits : (Bytes → Option Bytes) → Option Bytes → Bytes → Bool
fits decoder none output = false
fits decoder (some input) output =
    ltb 0 (length input)
    && (elim (decoder input) [ none ↦ false | some decoded ↦ length decoded == length output ])

-- What `decode_callback` may answer.
abbrev pub DecodeSpec :
    (Bytes → Option Bytes) → Option Bytes → Bytes → ℕ → Status × (Bytes × ℕ) → Type 0
DecodeSpec decoder input output used (success, (output', used')) =
    (fits decoder input output ≡ true)
    × (b : Bytes) × (input ≡ some b)
    × (decoder b ≡ some output')
    × (length output' ≡ length output)
    × (used' ≡ length output)
DecodeSpec decoder input output used (failure, (output', used')) =
    (fits decoder input output ≡ false) × (output' ≡ output) × (used' ≡ used)
DecodeSpec decoder input output used (aborted, _) = ⊥

-- The callback of a decompressor succeeds exactly when there is input and it decodes to as many
-- bytes as NSS expects. Then the output is what was decoded and all of it counts as used; else the
-- output and the length are as they were.
pub decode_callback_lem :
    (decoder : Bytes → Option Bytes) (input : Option Bytes) (output : Bytes) (used : ℕ)
    → DecodeSpec decoder input output used
        (decode_callback (decompressor decoder) input output used)
unfolding decode_callback decode_all finish
decode_callback_lem decoder none output used = ground arith
decode_callback_lem decoder (some input) output used = elim (Option-cases (decoder input)) [
  | inl broken ↦ ground (arith, broken)
  | inr (d, whole) ↦ ground (arith, whole)
]
