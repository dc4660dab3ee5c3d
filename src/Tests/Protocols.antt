-- ===== src/Tests/Protocols.antt =====
-- The theorems on `set_alpn` and on resumption tickets, applied.
use never_fox.Tickets.{TicketInfo}
use never_fox.Tickets.Last.{
  readable, receive_all, receive_all-readable, take_out-receive_all, take_out, newest_first,
}
use never_fox.Nss.{Bytes}
use never_fox.Alpn.Decode.{decode, encode_alpn-decode}
use never_fox.Alpn.{encode_alpn, add_each, add}
use never_fox.Base.{
  codes, length, drop, ok, ◌+◌, ◌-◌, ◌≤◌, ◌≡◌, refl, some, List, [], ◌∷◌, ◌++◌, arith,
}

abbrev h3 : Bytes
h3 = codes "h3"

encoded : encode_alpn (h3 ∷ codes "http/1.1" ∷ []) ≡ ok (8 ∷ (codes "http/1.1" ++ (2 ∷ h3)))
unfolding encode_alpn add_each add
encoded = refl

encode_alpn-decode_example :
    decode (8 ∷ (codes "http/1.1" ++ (2 ∷ h3))) ≡ some (codes "http/1.1" ∷ h3 ∷ [])
encode_alpn-decode_example =
    encode_alpn-decode h3 (codes "http/1.1" ∷ []) (8 ∷ (codes "http/1.1" ++ (2 ∷ h3))) encoded

abbrev demo_info : TicketInfo
demo_info = record { expiration = λ b. some (length b); instant = λ e. some (1000 + e) }

abbrev six_tickets : List Bytes
six_tickets = (1 ∷ []) ∷ (2 ∷ []) ∷ (3 ∷ []) ∷ (4 ∷ []) ∷ (5 ∷ []) ∷ (6 ∷ []) ∷ []

receive_all-readable_example :
    let ts = readable demo_info six_tickets in
    (receive_all demo_info six_tickets [] ≡ drop (length ts - 4) ts)
    × (length (receive_all demo_info six_tickets []) ≤ 4)
receive_all-readable_example = receive_all-readable demo_info six_tickets (λ e. refl)

take_out-receive_all_example :
    let ts = readable demo_info six_tickets in
    take_out 9 (receive_all demo_info six_tickets []) ≡ newest_first (drop (length ts - 4) ts)
take_out-receive_all_example =
    take_out-receive_all demo_info six_tickets 9 (λ e. refl) (omega arith)
