-- ===== src/Tickets.antt =====
-- The resumption tickets of a client: `resumption_token_cb`, `resumption_token` and
-- `has_resumption_token` of nss-rs/src/agent.rs. What NSS says of a ticket is a parameter.
pub mod Last
use never_fox.Nss.{Bytes}
use never_fox.Base.{
  ltb, leb, if◌then◌else◌, length, ℕ, Bool, Option, none, some, List, [], ◌∷◌, ◌++◌,
}

-- `ResumptionToken`
pub record ResumptionToken : Type 0 where
  pub token : Bytes
  pub expiration_time : ℕ

-- `MAX_TICKETS`
abbrev pub max_tickets : ℕ
max_tickets = 4

-- What NSS reads in a ticket, and `Time::try_from`; none where that fails.
pub record TicketInfo : Type 0 where
  pub expiration : Bytes → Option ℕ
  pub instant : ℕ → Option ℕ

-- `Vec::remove(0)`, on a list that is not empty
abbrev remove_first : List ResumptionToken → List ResumptionToken
remove_first [] = []
remove_first (t ∷ ts) = ts

-- The oldest ticket goes when there are as many as there may be.
unfoldable pub make_room : List ResumptionToken → List ResumptionToken
make_room tickets = if leb max_tickets (length tickets) then remove_first tickets else tickets

-- `resumption_token_cb`: the newest ticket is last.
unfoldable pub resumption_token_cb :
    TicketInfo → Bytes → List ResumptionToken → List ResumptionToken
resumption_token_cb info token tickets = elim (info.expiration token) [
  | none ↦ tickets
  | some expiration ↦ elim (info.instant expiration) [
    | none ↦ make_room tickets
    | some t ↦ make_room tickets ++ (record { token = token; expiration_time = t } ∷ [])
  ]
]

-- `resumption_token`: `Vec::pop`
unfoldable pub resumption_token :
    List ResumptionToken → Option ResumptionToken × List ResumptionToken
resumption_token [] = (none, [])
resumption_token (t ∷ []) = (some t, [])
resumption_token (t ∷ u ∷ ts) = let (last, rest) = resumption_token (u ∷ ts) in (last, t ∷ rest)

-- `has_resumption_token`
unfoldable pub has_resumption_token : List ResumptionToken → Bool
has_resumption_token tickets = ltb 0 (length tickets)
