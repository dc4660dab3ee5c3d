-- ===== src/Compression.antt =====
-- Compressed certificates: the callbacks of nss-rs/src/agent.rs by which NSS compresses and
-- decompresses a certificate, and the decompressors of nss-rs/src/cert_compress.rs. The decoders
-- for zlib, brotli and zstd are not in the repository: they are parameters.
pub mod Exact
use never_fox.Types.{NssError, certificate_decoding}
use never_fox.Nss.{Bytes}
use never_fox.Base.{
  ltb, leb, ◌==◌, if◌then◌else◌, length, take, drop, Res, ok, err, panic, ℕ, ◌+◌, ◌%◌, ◌^◌, min,
  ◌||◌, Option, none, some, [], ◌++◌,
}

-- `CertificateCompressor`: both functions write to a buffer that they are given.
pub record CertificateCompressor : Type 0 where
  pub encode : Bytes → Bytes → Res NssError ℕ × Bytes
  pub decode : Bytes → Bytes → Res NssError (Unit {0}) × Bytes

-- The `encode` that the trait provides: as much of the input as there is room for.
unfoldable pub default_encode : Bytes → Bytes → Res NssError ℕ × Bytes
default_encode input output =
    let len = min (length input) (length output) in (ok len, take len input ++ drop len output)

-- `finish` of cert_compress.rs
unfoldable pub finish : Bytes → Bytes → Res NssError (Unit {0}) × Bytes
finish decoded output =
    if length decoded == length output then (ok tt, decoded) else (err certificate_decoding, output)

-- `decode` of `Zlib`, `Brotli` and `Zstd`, by what the decoder makes of all of the input.
unfoldable pub decode_all : (Bytes → Option Bytes) → Bytes → Bytes → Res NssError (Unit {0}) × Bytes
decode_all decoder input output = elim (decoder input) [
  | none ↦ (err certificate_decoding, output)
  | some decoded ↦ finish decoded output
]

-- `Zlib`, `Brotli`, `Zstd`
abbrev pub decompressor : (Bytes → Option Bytes) → CertificateCompressor
decompressor decoder = record { encode = default_encode; decode = decode_all decoder }

-- `SECStatus`; a panic in a function that C calls ends the process.
pub data Status : Type 0 where
  success failure aborted : Status

-- `decode_callback`: the status, the output buffer, and `*used_len`. The input is none for a null
-- pointer, and empty for an item without bytes.
unfoldable pub decode_callback :
    CertificateCompressor → Option Bytes → Bytes → ℕ → Status × (Bytes × ℕ)
decode_callback t none output used_len = (failure, (output, used_len))
decode_callback t (some input) output used_len =
    if length input == 0
    then (failure, (output, used_len))
    else (let (r, output') = t.decode input output in
        elim r [
          | ok _ ↦ (success, (output', length output))
          | err _ ↦ (failure, (output', used_len))
          | panic ↦ (aborted, (output', used_len))
        ])

-- `encode_callback`: the status, and the bytes of the output item, of which the length says how many
-- count. `alloc` is `SECITEM_AllocItem` on a length of 32 bits, which gives none if there is no memory.
unfoldable pub encode_into : CertificateCompressor → Bytes → Bytes → Status × (Bytes × ℕ)
encode_into t input output =
    let (r, output') = t.encode input output in
    elim r [
      | err _ ↦ (failure, (output', length output))
      | panic ↦ (aborted, (output', length output))
      | ok n ↦
          if n == 0 || (ltb (length output) n || leb (2 ^ 32) n)
          then (failure, (output', length output))
          else (success, (output', n))
    ]

unfoldable pub encode_callback :
    (ℕ → Option Bytes) → CertificateCompressor → Option Bytes → Status × (Bytes × ℕ)
encode_callback alloc t none = (failure, ([], 0))
encode_callback alloc t (some input) =
    if length input == 0 then (failure, ([], 0)) else (elim (alloc ((length input + 1) % 2 ^ 32)) [
      | none ↦ (failure, ([], 0))
      | some output ↦ encode_into t input output
    ])
