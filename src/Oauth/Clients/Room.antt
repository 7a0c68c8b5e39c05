-- ===== src/Oauth/Clients/Room.antt =====
-- The loop of `makeClientRoom`, and the clients that it evicts.
use chatgpt_mcp_clean.Base.{
  ℕ, zero, suc, ◌<◌, ◌≡◌, refl, sym, ap, subst, ◌∙◌, ◌⊎◌, inl, inr, Bool, true, false, Option, none,
  some, [], ◌∷◌, arith, if◌then◌else◌, leb, length, Text, text_eq, text_eq_iff, Table, lookup,
  erase, lookup-erase, Distinct, Distinct-erase, Bool-cases, Option-cases,
}
use mathlib.Core.Bool.{false≢true}
use chatgpt_mcp_clean.Oauth.Records.{Client, Provider, max_clients}
use chatgpt_mcp_clean.Oauth.Rotation.Descent.{length-erase_found}
use chatgpt_mcp_clean.Oauth.Clients.{
  is_client_referenced, is_spare, find_first, next_spare, evict_client, room_loop, or_same,
  make_client_room,
}
use chatgpt_mcp_clean.Oauth.Clients.Spare.{
  IsRemembered, by_code, by_access, by_refresh, Stays, spare_of_Stays, spare-Stays,
}

-- The key that is found is in the table, with an entry that passes the test.
find_first_lem :
    {V : Type 0} (p : Text × V → Bool) (m : Table V) (u : Text)
    → Distinct m
    → find_first p m ≡ some u
    → (v : V) × (lookup u m ≡ some v) × (p (u, v) ≡ true)
unfolding find_first lookup
find_first_lem p [] u d h = ground arith
find_first_lem p ((k, v) ∷ m) u d h = elim (Bool-cases (p (k, v))) [
  | inl passes ↦
      let same : k ≡ u = ground (arith, h) in
      (v, ground (arith, (text_eq_iff k u)), subst (λ i. p (i, v) ≡ true) same passes)
  | inr fails ↦
      let (w, e, passes) = find_first_lem p m u d.1 (ground (arith, h)) in
      (w, ground (arith, d.0, text_eq_iff k u), passes)
]

next_spare_lem :
    (s : Provider) (u : Text)
    → Distinct s.clients
    → next_spare s ≡ some u
    → (c : Client) × (lookup u s.clients ≡ some c) × (is_spare s (u, c) ≡ true)
unfolding next_spare
next_spare_lem s u d h =
    find_first_lem (is_spare s) s.clients u d (taken (leb max_clients (length s.clients)) h)
  where
    taken :
        (b : Bool)
        → (if b then find_first (is_spare s) s.clients else none) ≡ some u
        → find_first (is_spare s) s.clients ≡ some u
    taken true e = e
    taken false e = ground arith

abbrev pub with_clients : Table Client → Provider → Provider
with_clients clients s = record s { clients = clients }

-- What the loop leaves: it could not go on, only clients are gone, and those that are not spare are
-- still there.
pub record Roomy (s : Provider) (r : Option Provider) : Type 0 where
  pub left : Provider
  pub runs : r ≡ some left
  pub ended : next_spare left ≡ none
  pub same : with_clients s.clients left ≡ s
  pub old : (k : Text) (c : Client) → lookup k left.clients ≡ some c → lookup k s.clients ≡ some c
  pub kept :
      (k : Text) (c : Client)
      → lookup k s.clients ≡ some c
      → is_spare s (k, c) ≡ false
      → lookup k left.clients ≡ some c

abbrev spare_at : Provider → Text → Option Client → Bool
spare_at s k none = false
spare_at s k (some c) = is_spare s (k, c)

Roomy-evict :
    (s : Provider) (u : Text) (r : Option Provider)
    → Distinct s.clients
    → next_spare s ≡ some u
    → Roomy (evict_client u s) r
    → Roomy s r
unfolding is_client_referenced
Roomy-evict s u r d e h = record {
  left = h.left;
  runs = h.runs;
  ended = h.ended;
  same = ap (with_clients s.clients) h.same;
  old = λ k c found. before k c (h.old k c found);
  kept = λ k c found busy. h.kept k c (still k c found busy) busy;
}
  where
    before :
        (k : Text) (c : Client)
        → lookup k (erase u s.clients) ≡ some c
        → lookup k s.clients ≡ some c
    before k c found = ground (arith, lookup-erase u k s.clients)

    still :
        (k : Text) (c : Client)
        → lookup k s.clients ≡ some c
        → is_spare s (k, c) ≡ false
        → lookup k (erase u s.clients) ≡ some c
    still k c found busy = elim (Bool-cases (text_eq u k)) [
      | inl same ↦
          let (c', found', spare) = next_spare_lem s u d e in
          let at_key = (text_eq_iff u k).0 same in
          absurd (
            false≢true (
              sym busy
              ∙ ap (λ o. spare_at s k o) (sym found)
              ∙ ap (λ i. spare_at s i (lookup i s.clients)) (sym at_key)
              ∙ ap (λ o. spare_at s u o) found'
              ∙ spare))
      | inr apart ↦ lookup-erase u k s.clients ∙ rw apart found
    ]

room_loop_lem :
    (fuel : ℕ) (s : Provider)
    → length s.clients < fuel
    → Distinct s.clients
    → Roomy s (room_loop fuel s)
unfolding room_loop
room_loop_lem zero s enough d = elim enough [ ]
room_loop_lem (suc fuel) s enough d = elim (Option-cases (next_spare s)) [
  | inl e ↦
      rw (e, room_loop)
        (record {
          left = s;
          runs = refl;
          ended = e;
          same = refl;
          old = λ k c found. found;
          kept = λ k c found busy. found;
        })
  | inr (u, e) ↦
      let (c, found, spare) = next_spare_lem s u d e in
      rw (e, room_loop)
        (Roomy-evict s u _ d e (
          room_loop_lem fuel (evict_client u s)
            (omega (arith, enough, length-erase_found u s.clients c found))
            (Distinct-erase u s.clients d)))
]

-- No entry of the table passes the test.
find_first_fails :
    {V : Type 0} (p : Text × V → Bool) (m : Table V) (k : Text) (v : V)
    → find_first p m ≡ none
    → lookup k m ≡ some v
    → p (k, v) ≡ false
unfolding find_first lookup
find_first_fails p [] k v e found = ground arith
find_first_fails {V} p ((j, w) ∷ m) k v e found = elim (Bool-cases (p (j, w))) [
  | inl passes ↦ ground arith
  | inr fails ↦ elim (Bool-cases (text_eq j k)) [
    | inl same ↦
        let here : w ≡ v = ground (arith, found) in
        subst (λ i. p (i, v) ≡ false) ((text_eq_iff j k).0 same)
          (subst (λ x. p (j, x) ≡ false) here fails)
    | inr apart ↦ find_first_fails p m k v (ground arith) (ground arith)
  ]
]

-- Why the loop ends: there is room, or all the clients that are left must stay.
next_spare_ends :
    (s : Provider)
    → next_spare s ≡ none
    → (length s.clients < max_clients)
      ⊎ ((k : Text) (c : Client) → lookup k s.clients ≡ some c → Stays s k c)
unfolding next_spare
next_spare_ends s e = elim (Bool-cases (leb max_clients (length s.clients))) [
  | inl full ↦ inr λ k c found.
      spare-Stays s k c (find_first_fails (is_spare s) s.clients k c (ground arith) found)
  | inr room ↦ inl (ground arith)
]

-- What `makeClientRoom` leaves of the provider.
pub record HasRoom (s left : Provider) : Type 0 where
  pub only_clients : with_clients s.clients left ≡ s
  pub old : (k : Text) (c : Client) → lookup k left.clients ≡ some c → lookup k s.clients ≡ some c
  pub kept :
      (k : Text) (c : Client)
      → lookup k s.clients ≡ some c
      → Stays s k c
      → lookup k left.clients ≡ some c
  pub ended :
      (length left.clients < max_clients)
      ⊎ ((k : Text) (c : Client) → lookup k left.clients ≡ some c → Stays s k c)

before-Stays :
    (s left : Provider) (k : Text) (c : Client)
    → with_clients s.clients left ≡ s
    → Stays left k c
    → Stays s k c
before-Stays s left k c same (inr h) = inr h
before-Stays s left k c same (inl h) = inl (subst (λ t. IsRemembered t k) same (again h))
  where
    again : IsRemembered left k → IsRemembered (with_clients s.clients left) k
    again (by_code h) = by_code h
    again (by_access h) = by_access h
    again (by_refresh h) = by_refresh h

Roomy-HasRoom : (s : Provider) (r : Option Provider) (h : Roomy s r) → HasRoom s h.left
Roomy-HasRoom s r h = record {
  only_clients = h.same;
  old = h.old;
  kept = λ k c found stays. h.kept k c found (spare_of_Stays s k c stays);
  ended = reason (next_spare_ends h.left h.ended);
}
  where
    reason :
        (length h.left.clients < max_clients)
          ⊎ ((k : Text) (c : Client) → lookup k h.left.clients ≡ some c → Stays h.left k c)
        → (length h.left.clients < max_clients)
          ⊎ ((k : Text) (c : Client) → lookup k h.left.clients ≡ some c → Stays s k c)
    reason (inl room) = inl room
    reason (inr all) = inr λ k c found. before-Stays s h.left k c h.same (all k c found)

-- `makeClientRoom` ends by its own tests, within the fuel that it has, when the keys of the table of
-- clients are distinct. It adds no client and changes nothing else. A client of which a code, an
-- access token or a refresh token is stored, or whose name is not one of the five of the probes,
-- stays as it is. At the end there are fewer clients than the bound, or all that are left are such.
pub make_client_room_lem :
    (s : Provider)
    → Distinct s.clients
    → (room_loop (suc (length s.clients)) s ≡ some (make_client_room s))
      × HasRoom s (make_client_room s)
unfolding make_client_room
make_client_room_lem s d =
    let roomy = room_loop_lem (suc (length s.clients)) s (omega arith) d in
    let left : or_same s (room_loop (suc (length s.clients)) s) ≡ roomy.left =
      ap (or_same s) roomy.runs in
    (roomy.runs ∙ ap some (sym left), subst (HasRoom s) (sym left) (Roomy-HasRoom s _ roomy))
