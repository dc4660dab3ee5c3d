-- ===== src/Tests/Compression.antt =====
-- The theorems on compressed certificates, applied.
use never_fox.Compression.Exact.{DecodeSpec, decode_callback_lem}
use never_fox.Nss.{Bytes}
use never_fox.Base.{
  ◌==◌, if◌then◌else◌, map_option, ℕ, zero, suc, ◌≡◌, refl, Option, none, some, [], ◌∷◌,
}
use never_fox.Compression.{success, decode_callback, decode_all, decompressor, finish}

-- A decoder of bytes that come in pairs of the same.
abbrev halve : Bytes → Option Bytes
halve [] = some []
halve (b ∷ []) = none
halve (b ∷ c ∷ rest) = let r = halve rest in if b == c then map_option (λ bs. b ∷ bs) r else none

decode_callback_lem_example :
    DecodeSpec halve
      (some (7 ∷ 7 ∷ 9 ∷ 9 ∷ []))
      (0 ∷ 0 ∷ [])
      0
      (decode_callback (decompressor halve) (some (7 ∷ 7 ∷ 9 ∷ 9 ∷ [])) (0 ∷ 0 ∷ []) 0)
decode_callback_lem_example = decode_callback_lem halve (some (7 ∷ 7 ∷ 9 ∷ 9 ∷ [])) (0 ∷ 0 ∷ []) 0

-- The buffer is filled.
decoded :
    decode_callback (decompressor halve) (some (7 ∷ 7 ∷ 9 ∷ 9 ∷ [])) (0 ∷ 0 ∷ []) 0
    ≡ (success, (7 ∷ 9 ∷ [], 2))
unfolding decode_callback decode_all finish
decoded = refl

abbrev zeros : ℕ → Bytes
zeros zero = []
zeros (suc n) = 0 ∷ zeros n
