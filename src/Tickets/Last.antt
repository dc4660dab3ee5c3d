-- ===== src/Tickets/Last.antt =====
-- Which tickets a client keeps.
use never_fox.Nss.{Bytes}
use never_fox.Tickets.{
  make_room, TicketInfo, resumption_token_cb, ResumptionToken, Bytes, resumption_token,
}
use mathlib.Core.List.{append_assoc, append-nil}
use never_fox.Base.{
  leb, leb→le, Bool-cases, Option-cases, is_some, length, drop, length-append, ℕ, zero, suc, ◌+◌,
  ◌-◌, ◌≤◌, ◌≡◌, refl, sym, ap, subst, ◌∙◌, inl, inr, true, none, some, List, [], ◌∷◌, ◌++◌, arith,
}

-- The tickets that NSS and the clock can read, of those received.
abbrev pub readable : TicketInfo → List Bytes → List ResumptionToken
readable info [] = []
readable info (b ∷ bs) = elim (info.expiration b) [
  | none ↦ readable info bs
  | some e ↦ elim (info.instant e) [
    | none ↦ readable info bs
    | some t ↦ record { token = b; expiration_time = t } ∷ readable info bs
  ]
]

-- The tickets kept after those of a list are received in turn.
abbrev pub receive_all : TicketInfo → List Bytes → List ResumptionToken → List ResumptionToken
receive_all info [] tickets = tickets
receive_all info (b ∷ bs) tickets = receive_all info bs (resumption_token_cb info b tickets)

abbrev push_all : List ResumptionToken → List ResumptionToken → List ResumptionToken
push_all [] q = q
push_all (t ∷ ts) q = push_all ts (make_room q ++ (t ∷ []))

make_room-length :
    (q : List ResumptionToken)
    → length q ≤ 4
    → (length (make_room q) ≤ 3) × (length q ≤ length (make_room q) + 1)
unfolding make_room
make_room-length [] h = ground arith
make_room-length (x ∷ q) h = ground arith

drop_room :
    (q : List ResumptionToken) (t : ResumptionToken) (ts : List ResumptionToken)
    → length q ≤ 4
    → drop (length (make_room q ++ (t ∷ [])) + length ts - 4) (make_room q ++ (t ∷ ts))
      ≡ drop (length q + suc (length ts) - 4) (q ++ (t ∷ ts))
unfolding make_room
drop_room [] t ts h = ap (λ n. drop n (t ∷ ts)) (omega arith)
drop_room (x ∷ q) t ts h = elim (Bool-cases (leb 4 (suc (length q)))) [
  | inl full ↦
      rw (full, length-append q (t ∷ []))
        (subst
          (λ n. drop (length q + 1 + length ts - 4) (q ++ (t ∷ ts)) ≡ drop n (x ∷ (q ++ (t ∷ ts))))
          (next_index full) (ap (λ n. drop n (q ++ (t ∷ ts))) (omega arith)))
  | inr free ↦
      rw (free, length-append q (t ∷ [])) (ap (λ n. drop n (x ∷ (q ++ (t ∷ ts)))) (omega arith))
]
  where
    next_index :
        leb 4 (suc (length q)) ≡ true
        → suc (length q + length ts - 3) ≡ suc (length q) + suc (length ts) - 4
    next_index full = omega (arith, leb→le _ _ full)

drop_none : (n : ℕ) (q : List ResumptionToken) → n ≡ 0 → drop n q ≡ q
drop_none n q e = rw e refl

push_all-drop :
    (ts q : List ResumptionToken)
    → length q ≤ 4
    → (push_all ts q ≡ drop (length q + length ts - 4) (q ++ ts)) × (length (push_all ts q) ≤ 4)
push_all-drop [] q h = (rw (append-nil q) (sym (drop_none (length q + 0 - 4) q (omega arith))), h)
push_all-drop (t ∷ ts) q h =
    let room = make_room-length q h in
    let rest =
      push_all-drop ts (make_room q ++ (t ∷ []))
        (omega (arith, room, length-append (make_room q) (t ∷ []))) in
    (
      rest.0
          ∙ ap (drop (length (make_room q ++ (t ∷ [])) + length ts - 4))
              (append_assoc (make_room q) (t ∷ []) ts)
          ∙ drop_room q t ts h,
      rest.1,
    )

receive_all-push_all :
    (info : TicketInfo) (bs : List Bytes) (q : List ResumptionToken)
    → ((e : ℕ) → is_some (info.instant e) ≡ true)
    → receive_all info bs q ≡ push_all (readable info bs) q
unfolding resumption_token_cb
receive_all-push_all info [] q clock = refl
receive_all-push_all info (b ∷ bs) q clock = elim (Option-cases (info.expiration b)) [
  | inl unread ↦ ground (arith, unread, receive_all-push_all info bs q clock)
  | inr (e, read) ↦ elim (Option-cases (info.instant e)) [
    | inl bad ↦ ground (arith, bad, clock e)
    | inr (t, good) ↦ ground (
      arith,
      read,
      good,
      receive_all-push_all info bs (make_room q ++ (record { token = b; expiration_time = t } ∷ []))
          clock,
    )
  ]
]

-- A client that starts without tickets and takes none out, with a clock that can hold every
-- expiration time, has kept the last four of the tickets that NSS could read, oldest first, or all
-- of them if there were fewer.
pub receive_all-readable :
    (info : TicketInfo) (bs : List Bytes)
    → ((e : ℕ) → is_some (info.instant e) ≡ true)
    → let ts = readable info bs in
      (receive_all info bs [] ≡ drop (length ts - 4) ts) × (length (receive_all info bs []) ≤ 4)
receive_all-readable info bs clock =
    let ts = readable info bs in
    let kept = push_all-drop ts [] (omega arith) in
    rw (receive_all-push_all info bs [] clock) (kept.0 ∙ ap (λ n. drop n ts) (omega arith), kept.1)

pop-append :
    (ts : List ResumptionToken) (t : ResumptionToken)
    → resumption_token (ts ++ (t ∷ [])) ≡ (some t, ts)
unfolding resumption_token
pop-append [] t = refl
pop-append (u ∷ []) t = refl
pop-append (u ∷ v ∷ ts) t = ground (arith, pop-append (v ∷ ts) t)

-- The tickets that a client takes out, one after another, at most `n`.
abbrev pub take_out : ℕ → List ResumptionToken → List ResumptionToken
take_out zero tickets = []
take_out (suc n) tickets =
    let (t, rest) = resumption_token tickets in
    let more = take_out n rest in elim t [ none ↦ [] | some token ↦ token ∷ more ]

abbrev pub newest_first : List ResumptionToken → List ResumptionToken
newest_first [] = []
newest_first (t ∷ ts) = newest_first ts ++ (t ∷ [])

newest_first-append :
    (ts : List ResumptionToken) (t : ResumptionToken)
    → newest_first (ts ++ (t ∷ [])) ≡ t ∷ newest_first ts
newest_first-append [] t = refl
newest_first-append (u ∷ ts) t = ap (λ l. l ++ (u ∷ [])) (newest_first-append ts t)

split_last :
    (u : ResumptionToken) (ts : List ResumptionToken)
    → (rest : List ResumptionToken) × (t : ResumptionToken) × (u ∷ ts ≡ rest ++ (t ∷ []))
      × (length rest ≡ length ts)
split_last u [] = ([], u, refl, refl)
split_last u (v ∷ ts) =
    let (rest, t, e, l) = split_last v ts in (u ∷ rest, t, ap (λ k. u ∷ k) e, ap suc l)

take_out-append :
    (n : ℕ) (ts : List ResumptionToken) (t : ResumptionToken)
    → take_out (suc n) (ts ++ (t ∷ [])) ≡ t ∷ take_out n ts
take_out-append n ts t =
    ap (λ p. elim p.0 [ none ↦ [] | some token ↦ token ∷ take_out n p.1 ]) (pop-append ts t)

take_out-newest_first :
    (n : ℕ) (tickets : List ResumptionToken)
    → length tickets ≤ n
    → take_out n tickets ≡ newest_first tickets
unfolding resumption_token
take_out-newest_first zero [] h = refl
take_out-newest_first (suc n) [] h = refl
take_out-newest_first zero (u ∷ ts) h = ground arith
take_out-newest_first (suc n) (u ∷ ts) h =
    let (rest, t, e, l) = split_last u ts in
    ap (take_out (suc n)) e
    ∙ take_out-append n rest t
    ∙ ap (λ k. t ∷ k) (take_out-newest_first n rest (omega (arith, l, h)))
    ∙ sym (ap newest_first e ∙ newest_first-append rest t)

-- A client that starts without tickets, with a clock that can hold every expiration time, takes out
-- the last four of the tickets that NSS could read, or all of them if there were fewer, the newest
-- first, however many more it asks for.
pub take_out-receive_all :
    (info : TicketInfo) (bs : List Bytes) (n : ℕ)
    → ((e : ℕ) → is_some (info.instant e) ≡ true)
    → 4 ≤ n
    → let ts = readable info bs in
      take_out n (receive_all info bs []) ≡ newest_first (drop (length ts - 4) ts)
take_out-receive_all info bs n clock enough =
    let kept = receive_all-readable info bs clock in
    take_out-newest_first n (receive_all info bs []) (omega (arith, kept.1, enough))
    ∙ ap newest_first kept.0
