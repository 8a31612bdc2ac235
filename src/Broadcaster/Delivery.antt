-- ===== src/Broadcaster/Delivery.antt =====
-- What the subscribers of pkg/util/broadcaster/broadcaster.go get.
use longhorn_engine_launcher.Prelude.{
  ℕ, zero, suc, ◌<◌, ◌≡◌, refl, sym, ap, subst, ==_iff, ◌∙◌, true, false, ◌||◌, List, [], ◌∷◌, ◌++◌,
  ◌==◌, length, length-append, if◌then◌else◌, arith, inl, inr, Bool-cases, ltb, ltb→lt, take, ◌-◌,
  ◌⊎◌,
}
use longhorn_engine_launcher.Broadcaster.{
  Broadcaster, Channel, capacity, contains, remove, put, offer, unsub, send_to, publish, unsub_all,
  end_stream, subscribe,
}
use longhorn_engine_launcher.Broadcaster.Safety.{==-self, send_to-SameOpen}

-- The keys of a Go map.
abbrev pub Distinct : List ℕ → Type 0
Distinct [] = Unit
Distinct (c ∷ cs) = (contains c cs ≡ false) × Distinct cs

contains-remove :
    (c d : ℕ) (ds : List ℕ) → (d == c) ≡ false → contains c (remove d ds) ≡ contains c ds
contains-remove c d [] h = refl
contains-remove c d (e ∷ es) h = ground (arith, contains-remove c d es h)

remove-contains : (c : ℕ) (ds : List ℕ) → contains c (remove c ds) ≡ false
remove-contains c [] = refl
remove-contains c (e ∷ es) = ground (arith, remove-contains c es)

snoc-append : {A : Type 0} (xs ys : List A) (x : A) → (xs ++ x ∷ []) ++ ys ≡ xs ++ x ∷ ys
snoc-append [] ys x = refl
snoc-append (y ∷ xs) ys x = ap (λ zs. y ∷ zs) (snoc-append xs ys x)

append-nil : {A : Type 0} (xs : List A) → xs ++ [] ≡ xs
append-nil [] = refl
append-nil (x ∷ xs) = ap (λ zs. x ∷ zs) (append-nil xs)

take-nil : {A : Type 0} (n : ℕ) → take {A = A} n [] ≡ []
take-nil zero = refl
take-nil (suc n) = refl

module _ {A : Type 0} where
  put-other : (c d : ℕ) (x : Channel A) (f : ℕ → Channel A) → (d == c) ≡ false → put d x f c ≡ f c
  put-other c d x f h = rw (flipped (Bool-cases (c == d))) refl
    where
      flipped : ((c == d) ≡ true) ⊎ ((c == d) ≡ false) → (c == d) ≡ false
      flipped (inl same) = ground (arith, (==_iff c d).0 same)
      flipped (inr other) = other

  send_to-absent :
      (item : A) (c : ℕ) (cs : List ℕ) (b : Broadcaster A)
      → contains c cs ≡ false
      → (send_to item cs b).0.channels c ≡ b.channels c
  unfolding send_to
  send_to-absent item c [] b h = refl
  send_to-absent item c (d ∷ ds) b h = elim (Bool-cases (d == c)) [
    | inl same ↦ absurd (ground (arith, h, same))
    | inr other ↦ send_to-absent item c ds _ (rw other at h) ∙ put-other c d _ b.channels other
  ]

  send_to-present :
      (item : A) (c : ℕ) (cs : List ℕ) (b : Broadcaster A)
      → Distinct cs
      → contains c cs ≡ true
      → (send_to item cs b).0.channels c ≡ (offer item (b.channels c)).0
  unfolding send_to
  send_to-present item c [] b u h = cc
  send_to-present item c (d ∷ ds) b u h = elim (Bool-cases (d == c)) [
    | inl same ↦
        subst (λ e. (send_to item ds (sent d)).0.channels e ≡ (offer item (b.channels e)).0)
          ((==_iff d c).0 same) (send_to-absent item d ds (sent d) u.0 ∙ rw (==-self d) refl)
    | inr other ↦
        send_to-present item c ds (sent d) u.1 (rw other at h)
        ∙ ap (λ x. (offer item x).0) (put-other c d (offer item (b.channels d)).0 b.channels other)
  ]
    where
      sent : ℕ → Broadcaster A
      sent d = record b {
        channels = put d (offer item (b.channels d)).0 b.channels;
        panicked = b.panicked || (b.channels d).closed;
      }

  -- One item from the stream is put at the end of the buffer of every subscriber that has room for
  -- it, and no other channel changes.
  pub publish-channels :
      (item : A) (c : ℕ) (b : Broadcaster A)
      → Distinct b.subs
      → (publish item b).0.channels c
        ≡ (if contains c b.subs then (offer item (b.channels c)).0 else b.channels c)
  unfolding publish
  publish-channels item c b u = elim (Bool-cases (contains c b.subs)) [
    | inl found ↦ send_to-present item c b.subs b u found ∙ rw found refl
    | inr absent ↦ send_to-absent item c b.subs b absent ∙ rw absent refl
  ]

  publish-subs : (item : A) (b : Broadcaster A) → (publish item b).0.subs ≡ b.subs
  unfolding publish
  publish-subs item b = (send_to-SameOpen item b.subs b).same_subs

  -- The items of the stream, one after the other.
  abbrev pub publish_all : List A → Broadcaster A → Broadcaster A
  publish_all [] b = b
  publish_all (item ∷ items) b = publish_all items (publish item b).0

  take-offer :
      (item : A) (items : List A) (x : Channel A)
      → (offer item x).0.buffer ++ take (capacity - length (offer item x).0.buffer) items
        ≡ x.buffer ++ take (capacity - length x.buffer) (item ∷ items)
  take-offer item items x = elim (Bool-cases (ltb (length x.buffer) capacity)) [
    | inl room ↦ rw room (
        snoc-append x.buffer (take (capacity - length (x.buffer ++ item ∷ [])) items) item
        ∙ ap (λ k. x.buffer ++ take k (item ∷ items)) (one_less (ltb→lt _ _ room)))
    | inr full ↦ rw full (
        ap (λ k. x.buffer ++ take k items) (nothing_left full)
        ∙ ap (λ k. x.buffer ++ take k (item ∷ items)) (sym (nothing_left full)))
  ]
    where
      one_less :
          length x.buffer < capacity
          → suc (capacity - length (x.buffer ++ item ∷ [])) ≡ capacity - length x.buffer
      one_less lt = omega (arith, length-append x.buffer (item ∷ []), lt)

      nothing_left : ltb (length x.buffer) capacity ≡ false → capacity - length x.buffer ≡ 0
      nothing_left h = ground arith

  offered :
      (item : A) (c : ℕ) (b : Broadcaster A)
      → Distinct b.subs
      → contains c b.subs ≡ true
      → (publish item b).0.channels c ≡ (offer item (b.channels c)).0
  offered item c b u found = publish-channels item c b u ∙ rw found refl

  -- A subscriber that stays subscribed and reads nothing gets the items in their order until its
  -- channel is full, and none after that.
  pub publish_all-buffer :
      (items : List A) (c : ℕ) (b : Broadcaster A)
      → Distinct b.subs
      → contains c b.subs ≡ true
      → ((publish_all items b).channels c).buffer
        ≡ (b.channels c).buffer ++ take (capacity - length (b.channels c).buffer) items
  publish_all-buffer [] c b u found =
      sym (ap (λ xs. (b.channels c).buffer ++ xs) (take-nil _) ∙ append-nil _)
  publish_all-buffer (item ∷ items) c b u found =
      let after = (publish item b).0 in
      let same = publish-subs item b in
      publish_all-buffer items c after (rw same u) (rw same found)
      ∙ ap (λ (x : Channel A). x.buffer ++ take (capacity - length x.buffer) items)
          (offered item c b u found)
      ∙ take-offer item items (b.channels c)

  unsub-closes :
      (c : ℕ) (b : Broadcaster A)
      → contains c b.subs ≡ true
      → ((unsub c b).channels c).closed ≡ true
  unfolding unsub
  unsub-closes c b h = rw (h, ==-self c) refl

  unsub-keeps :
      (c d : ℕ) (b : Broadcaster A)
      → (b.channels c).closed ≡ true
      → ((unsub d b).channels c).closed ≡ true
  unfolding unsub
  unsub-keeps c d b h = ground (arith, h)

  unsub-subs :
      (c d : ℕ) (b : Broadcaster A)
      → (d == c) ≡ false
      → contains c (unsub d b).subs ≡ contains c b.subs
  unfolding unsub
  unsub-subs c d b h = ground (arith, contains-remove c d b.subs h)

  unsub_all-keeps :
      (c : ℕ) (cs : List ℕ) (b : Broadcaster A)
      → (b.channels c).closed ≡ true
      → ((unsub_all cs b).channels c).closed ≡ true
  unfolding unsub_all
  unsub_all-keeps c [] b h = h
  unsub_all-keeps c (d ∷ ds) b h = unsub_all-keeps c ds (unsub d b) (unsub-keeps c d b h)

  unsub_all-closes :
      (c : ℕ) (cs : List ℕ) (b : Broadcaster A)
      → contains c cs ≡ true
      → contains c b.subs ≡ true
      → ((unsub_all cs b).channels c).closed ≡ true
  unfolding unsub_all
  unsub_all-closes c [] b h found = cc
  unsub_all-closes c (d ∷ ds) b h found = elim (Bool-cases (d == c)) [
    | inl same ↦ unsub_all-keeps c ds (unsub d b) (
        subst (λ e. ((unsub e b).channels c).closed ≡ true) (sym ((==_iff d c).0 same))
          (unsub-closes c b found))
    | inr other ↦ unsub_all-closes c ds (unsub d b) (rw other at h) (unsub-subs c d b other ∙ found)
  ]

  -- When the input ends, the channel of every subscriber is closed, no stream runs, and a
  -- subscription whose connection fails is refused.
  pub end_stream-closes :
      (c : ℕ) (b : Broadcaster A)
      → contains c b.subs ≡ true
      → (((end_stream b).channels c).closed ≡ true)
        × ((end_stream b).running ≡ false)
        × ((subscribe false (end_stream b)).1 ≡ false)
  unfolding end_stream subscribe
  end_stream-closes c b found = (unsub_all-closes c b.subs b found found, refl, refl)
