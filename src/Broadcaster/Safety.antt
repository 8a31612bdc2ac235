-- ===== src/Broadcaster/Safety.antt =====
-- No history of pkg/util/broadcaster/broadcaster.go sends to a closed channel or closes one twice.
use longhorn_engine_launcher.Prelude.{
  ℕ, suc, ◌<◌, ◌≡◌, refl, sym, ap, subst, ==_iff, ◌∙◌, Bool, true, false, ◌||◌, List, [], ◌∷◌, ◌==◌,
  All, if◌then◌else◌, arith, inl, inr, Bool-cases,
}
use longhorn_engine_launcher.Broadcaster.{
  Broadcaster, Channel, contains, remove, put, offer, add_channel, subscribe, unsub, send_to,
  publish, unsub_all, end_stream, receive, rest_of, new_broadcaster,
}

pub ==-self : (c : ℕ) → (c == c) ≡ true
==-self c = (==_iff c c).1 refl

==-below : (c n : ℕ) → c < n → (c == n) ≡ false
==-below c n h = ground arith

module _ {A : Type 0} where
  pub data Step (b : Broadcaster A) (d : Broadcaster A) : Type 0 where
    subscribes : (connects : Bool) → d ≡ (subscribe connects b).0 → Step b d
    unsubscribes : (c : ℕ) → d ≡ unsub c b → Step b d
    publishes : (item : A) → d ≡ (publish item b).0 → Step b d
    ends : d ≡ end_stream b → Step b d
    receives : (c : ℕ) → d ≡ receive c b → Step b d

  pub data Reach (b : Broadcaster A) : Broadcaster A → Type 0 where
    here : Reach b b
    next : {d e : Broadcaster A} → Reach b d → Step d e → Reach b e

  -- The channel has been made and is open.
  abbrev pub IsOpen : ℕ → (ℕ → Channel A) → ℕ → Type 0
  IsOpen n channels c = (c < n) × ((channels c).closed ≡ false)

  pub record IsSafe (b : Broadcaster A) : Type 0 where
    pub open_subs : All (IsOpen b.next_channel b.channels) b.subs
    pub not_panicked : b.panicked ≡ false

  All-IsOpen :
      (n k : ℕ) (f g : ℕ → Channel A) (cs : List ℕ)
      → ((c : ℕ) → IsOpen n f c → IsOpen k g c)
      → All (IsOpen n f) cs
      → All (IsOpen k g) cs
  All-IsOpen n k f g [] h v = tt
  All-IsOpen n k f g (c ∷ cs) h v = (h c v.0, All-IsOpen n k f g cs h v.1)

  remove-IsOpen :
      (n c : ℕ) (x : Channel A) (f : ℕ → Channel A) (cs : List ℕ)
      → All (IsOpen n f) cs
      → All (IsOpen n (put c x f)) (remove c cs)
  remove-IsOpen n c x f [] v = tt
  remove-IsOpen n c x f (d ∷ ds) v = elim (Bool-cases (d == c)) [
    | inl same ↦ rw same (remove-IsOpen n c x f ds v.1)
    | inr other ↦ rw other ((v.0.0, rw other (v.0.1)), remove-IsOpen n c x f ds v.1)
  ]

  contains-IsOpen :
      (n c : ℕ) (f : ℕ → Channel A) (cs : List ℕ)
      → All (IsOpen n f) cs
      → contains c cs ≡ true
      → (f c).closed ≡ false
  contains-IsOpen n c f [] v h = cc
  contains-IsOpen n c f (d ∷ ds) v h = elim (Bool-cases (d == c)) [
    | inl same ↦ subst (λ x. (f x).closed ≡ false) ((==_iff d c).0 same) v.0.1
    | inr other ↦ contains-IsOpen n c f ds v.1 (rw other at h)
  ]

  pub unsub-IsSafe : (c : ℕ) (b : Broadcaster A) → IsSafe b → IsSafe (unsub c b)
  unfolding unsub
  unsub-IsSafe c b v = elim (Bool-cases (contains c b.subs)) [
    | inl found ↦ rw found (record {
      open_subs = remove-IsOpen b.next_channel c _ b.channels b.subs v.open_subs;
      not_panicked =
          rw (v.not_panicked, contains-IsOpen b.next_channel c b.channels b.subs v.open_subs found)
            refl;
    })
    | inr absent ↦ rw absent v
  ]

  -- The channel of a subscriber after a send: as open as before.
  offer-closed : (item : A) (x : Channel A) → (offer item x).0.closed ≡ x.closed
  offer-closed item x = ground arith

  put-closed :
      (c d : ℕ) (x : Channel A) (f : ℕ → Channel A)
      → x.closed ≡ (f c).closed
      → (put c x f d).closed ≡ (f d).closed
  put-closed c d x f h = elim (Bool-cases (d == c)) [
    | inl same ↦ rw same (h ∙ ap (λ y. (f y).closed) (sym ((==_iff d c).0 same)))
    | inr other ↦ rw other refl
  ]

  -- What a round of sends leaves alone.
  pub record SameOpen (b : Broadcaster A) (d : Broadcaster A) : Type 0 where
    pub same_subs : d.subs ≡ b.subs
    pub same_next : d.next_channel ≡ b.next_channel
    pub same_closed : (c : ℕ) → (d.channels c).closed ≡ (b.channels c).closed

  pub send_to-SameOpen :
      (item : A) (cs : List ℕ) (b : Broadcaster A) → SameOpen b (send_to item cs b).0
  unfolding send_to
  send_to-SameOpen item [] b = record {
    same_subs = refl;
    same_next = refl;
    same_closed = λ c. refl;
  }
  send_to-SameOpen item (c ∷ cs) b =
      let x = (offer item (b.channels c)).0 in
      let sent : Broadcaster A = record b {
        channels = put c x b.channels;
        panicked = b.panicked || (b.channels c).closed;
      } in
      let rest = send_to-SameOpen item cs sent in
      record {
        same_subs = rest.same_subs;
        same_next = rest.same_next;
        same_closed = λ d.
            rest.same_closed d ∙ put-closed c d x b.channels (offer-closed item (b.channels c));
      }

  send_to-panicked :
      (item : A) (cs : List ℕ) (b : Broadcaster A)
      → All (IsOpen b.next_channel b.channels) cs
      → b.panicked ≡ false
      → (send_to item cs b).0.panicked ≡ false
  unfolding send_to
  send_to-panicked item [] b v h = h
  send_to-panicked item (c ∷ cs) b v h =
      let x = (offer item (b.channels c)).0 in
      send_to-panicked item cs
        (record b { channels = put c x b.channels; panicked = b.panicked || (b.channels c).closed })
        (All-IsOpen b.next_channel b.next_channel b.channels (put c x b.channels) cs
          (λ d o. (o.0, put-closed c d x b.channels (offer-closed item (b.channels c)) ∙ o.1)) v.1)
        (rw (h, v.0.1) refl)

  publish-IsSafe : (item : A) (b : Broadcaster A) → IsSafe b → IsSafe (publish item b).0
  unfolding publish
  publish-IsSafe item b v =
      let same = send_to-SameOpen item b.subs b in
      record {
        open_subs = subst (All _) (sym same.same_subs) (
            All-IsOpen b.next_channel _ b.channels (publish item b).0.channels b.subs
              (λ c o. (rw same.same_next o.0, same.same_closed c ∙ o.1)) v.open_subs);
        not_panicked = send_to-panicked item b.subs b v.open_subs v.not_panicked;
      }

  unsub_all-IsSafe : (cs : List ℕ) (b : Broadcaster A) → IsSafe b → IsSafe (unsub_all cs b)
  unfolding unsub_all
  unsub_all-IsSafe [] b v = v
  unsub_all-IsSafe (c ∷ cs) b v = unsub_all-IsSafe cs (unsub c b) (unsub-IsSafe c b v)

  end_stream-IsSafe : (b : Broadcaster A) → IsSafe b → IsSafe (end_stream b)
  unfolding end_stream
  end_stream-IsSafe b v =
      let w = unsub_all-IsSafe b.subs b v in
      record { open_subs = w.open_subs; not_panicked = w.not_panicked }

  add_channel-IsSafe : (b : Broadcaster A) → IsSafe b → IsSafe (add_channel b)
  add_channel-IsSafe b v = record {
    open_subs = (
      (omega arith, rw (==-self b.next_channel) refl),
      All-IsOpen b.next_channel (suc b.next_channel) b.channels (add_channel b).channels b.subs
          (λ c o. (omega (arith, o.0), rw (==-below c b.next_channel o.0) (o.1))) v.open_subs,
    );
    not_panicked = v.not_panicked;
  }

  subscribe-IsSafe :
      (connects : Bool) (b : Broadcaster A) → IsSafe b → IsSafe (subscribe connects b).0
  unfolding subscribe
  subscribe-IsSafe connects b v = either b.running connects
    where
      safe : (r : Bool) → IsSafe (record b { running = r })
      safe r = record { open_subs = v.open_subs; not_panicked = v.not_panicked }

      either :
          (r c : Bool)
          → let x : Broadcaster A × Bool =
              if r
              then (add_channel b, true)
              else if c
              then (add_channel (record b { running = true }), true)
              else (b, false) in
            IsSafe x.0
      either true c = add_channel-IsSafe b v
      either false true = add_channel-IsSafe (record b { running = true }) (safe true)
      either false false = v

  receive-IsSafe : (c : ℕ) (b : Broadcaster A) → IsSafe b → IsSafe (receive c b)
  unfolding receive
  receive-IsSafe c b v = record {
    open_subs =
        All-IsOpen b.next_channel b.next_channel b.channels (receive c b).channels b.subs
          (λ d o. (
            o.0,
            put-closed c d (record (b.channels c) { buffer = rest_of (b.channels c).buffer })
                  b.channels refl
                ∙ o.1,
          ))
          v.open_subs;
    not_panicked = v.not_panicked;
  }

  pub Step-IsSafe : {b d : Broadcaster A} → Step b d → IsSafe b → IsSafe d
  Step-IsSafe {b} (subscribes k e) v = rw e (subscribe-IsSafe k b v)
  Step-IsSafe {b} (unsubscribes c e) v = rw e (unsub-IsSafe c b v)
  Step-IsSafe {b} (publishes item e) v = rw e (publish-IsSafe item b v)
  Step-IsSafe {b} (ends e) v = rw e (end_stream-IsSafe b v)
  Step-IsSafe {b} (receives c e) v = rw e (receive-IsSafe c b v)

  Reach-IsSafe : {b d : Broadcaster A} → Reach b d → IsSafe b → IsSafe d
  Reach-IsSafe here v = v
  Reach-IsSafe (next r st) v = Step-IsSafe st (Reach-IsSafe r v)

  -- In every history of a new broadcaster, nothing is sent to a closed channel, none is closed
  -- twice, and the registered channels are open.
  pub reachable-IsSafe : (b : Broadcaster A) → Reach new_broadcaster b → IsSafe b
  reachable-IsSafe b r = Reach-IsSafe r (record { open_subs = tt; not_panicked = refl })
