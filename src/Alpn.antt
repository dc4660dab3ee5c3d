-- ===== src/Alpn.antt =====
-- `set_alpn` of nss-rs/src/agent.rs: the list of protocols as NSS wants it, each with its length
-- before it, and the preferred one last.
pub mod Decode
use never_fox.Types.{NssError, invalid_alpn}
use never_fox.Nss.{Bytes}
use never_fox.Base.{ltb, if◌then◌else◌, length, Res, and_then, ok, err, ◌&&◌, List, [], ◌∷◌, ◌++◌}

-- `add`: one name at the end of what is encoded.
unfoldable pub add : Bytes → Bytes → Res NssError Bytes
add v encoded =
    if ltb (length v) 256 && ltb 0 (length v)
    then ok (encoded ++ (length v ∷ v))
    else err invalid_alpn

-- The loop over the names after the first.
unfoldable pub add_each : List Bytes → Bytes → Res NssError Bytes
add_each [] encoded = ok encoded
add_each (v ∷ vs) encoded = and_then (add v encoded) λ longer. add_each vs longer

-- `set_alpn`, up to the call of NSS: the bytes that are given to it.
unfoldable pub encode_alpn : List Bytes → Res NssError Bytes
encode_alpn [] = err invalid_alpn
encode_alpn (first ∷ rest) = and_then (add_each rest []) λ encoded. add first encoded
