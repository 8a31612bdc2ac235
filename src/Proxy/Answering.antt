-- ===== src/Proxy/Answering.antt =====
-- Which replica SnapshotBackupStatus of the V1 engine asks, pkg/proxy/backup.go.
use longhorn_engine_launcher.Prelude.{
  Bool, true, false, not, ◌||◌, ◌≡◌, ◌≢◌, refl, sym, ap, ◌∙◌, ◌⊎◌, inl, inr, List, [], ◌∷◌, ◌++◌,
  All, if◌then◌else◌, arith,
}
use longhorn_engine_launcher.Prelude.Text.{Text, is_empty, text_eq_iff}
use longhorn_engine_launcher.Rpc.{
  Failure, Result, value, failure, value_eq, and_then-value, answer_with-value,
}
use longhorn_engine_launcher.Proxy.{Libraries}
use longhorn_engine_launcher.Proxy.Types.{ProxyRequest, ControllerReplica, BackupStatus}
use longhorn_engine_launcher.Proxy.Replica.{v1_replica_list}
use longhorn_engine_launcher.Proxy.Backup.{
  is_rw, only_rw, fetch, find_replica, status_of, status_reply, v1_snapshot_backup_status,
}

module _ {W : Type 0} (L : Libraries W) where
  -- Every replica of the list with this address is in mode RW.
  abbrev pub OnlyRw : Text → List ControllerReplica → Type 0
  OnlyRw address = All (λ r. r.address ≡ address → is_rw L r ≡ true)

  only_rw-OnlyRw :
      (address : Text) (replicas : List ControllerReplica)
      → only_rw L address replicas ≡ true
      → OnlyRw address replicas
  unfolding only_rw
  only_rw-OnlyRw address [] h = tt
  only_rw-OnlyRw address (r ∷ rs) h =
      (λ e. ground (arith, text_eq_iff r.address address), only_rw-OnlyRw address rs (ground arith))

  -- An answer comes only when the test let the call through.
  let_through :
      {A : Type 0} (b : Bool) (e : Failure) (w : W) (r : W × Result A) (x : W) (a : A)
      → (if b then (w, failure e) else r) ≡ (x, value a)
      → (b ≡ false) × (r ≡ (x, value a))
  let_through true e w r x a h = cc
  let_through false e w r x a h = (refl, h)

  passed :
      (address : Text) (b : Bool)
      → (is_empty address || not b) ≡ false
      → (address ≢ []) × (b ≡ true)
  passed [] b h = cc
  passed (c ∷ cs) true h = (λ e. cc, refl)
  passed (c ∷ cs) false h = cc

  status_of-OnlyRw :
      (r : ProxyRequest) (backup_name replica_name address : Text)
      (replicas : List ControllerReplica) (w x : W) (s : BackupStatus)
      → status_of L r backup_name replica_name replicas address w ≡ (x, value s)
      → (s.replica_address ≡ address) × (address ≢ []) × OnlyRw address replicas
  unfolding status_of status_reply
  status_of-OnlyRw r backup_name replica_name address replicas w x s h =
      let t = let_through (is_empty address || not (only_rw L address replicas)) _ w _ x s h in
      let u =
        answer_with-value (status_reply address)
          (fetch L address r.volume_name replica_name backup_name w) x s t.1 in
      let p = passed address (only_rw L address replicas) t.0 in
      (
        sym (ap (λ (v : BackupStatus). v.replica_address) u.2),
        p.0,
        only_rw-OnlyRw address replicas p.1,
      )

  requested :
      (address : Text) (found : W × Result Text) (y z : W) (a : Text)
      → (if is_empty address then found else (y, value address)) ≡ (z, value a)
      → address ≢ []
      → a ≡ address
  requested [] found y z a h ne = absurd (ne refl)
  requested (c ∷ cs) found y z a h ne = sym (value_eq h)

  -- SnapshotBackupStatus of a V1 engine answers with the address of a replica that the engine lists,
  -- if it lists it, in mode RW only, in every entry; it is the replica of the request if the request
  -- names one.
  pub v1_snapshot_backup_status-OnlyRw :
      (r : ProxyRequest) (backup_name replica_name replica_address : Text) (w x : W)
      (s : BackupStatus)
      → v1_snapshot_backup_status L r backup_name replica_name replica_address w ≡ (x, value s)
      → (replicas : List ControllerReplica) × (y z : W) × (v1_replica_list L r y
          ≡ (z, value replicas))
        × (s.replica_address ≢ [])
        × OnlyRw s.replica_address replicas
        × (replica_address ≢ [] → s.replica_address ≡ replica_address)
  unfolding v1_snapshot_backup_status
  v1_snapshot_backup_status-OnlyRw r backup_name replica_name replica_address w x s h =
      let opened =
        and_then-value (Libraries.new_controller_client L r.address r.volume_name r.engine_name w) _
          x s h in
      let listed = and_then-value (v1_replica_list L r opened.0) _ x s opened.3 in
      let chosen =
        and_then-value
          (if is_empty replica_address
            then find_replica L r.volume_name backup_name listed.1 listed.0
            else (listed.0, value replica_address))
          _ x s listed.3 in
      let answered =
        status_of-OnlyRw r backup_name replica_name chosen.1 listed.1 chosen.0 x s chosen.3 in
      (
        listed.1,
        opened.0,
        listed.0,
        listed.2,
        rw answered.0 answered.1,
        rw answered.0 answered.2,
        λ ne. answered.0 ∙ requested replica_address _ listed.0 chosen.0 chosen.1 chosen.2 ne,
      )

  -- The search passes over these replicas, from the state `w` to the state `x`: each is not in mode
  -- RW, or is asked and fails.
  abbrev pub PassesOver : Text → Text → List ControllerReplica → W → W → Type 0
  PassesOver volume_name backup_name [] w x = w ≡ x
  PassesOver volume_name backup_name (q ∷ qs) w x =
      ((is_rw L q ≡ false) × PassesOver volume_name backup_name qs w x)
      ⊎ ((is_rw L q ≡ true)
          × (y : W) × (e : Failure) × (fetch L q.address volume_name [] backup_name w
              ≡ (y, failure e))
          × PassesOver volume_name backup_name qs y x)

  -- The first replica in mode RW whose service returns is chosen, whatever it returns: also an
  -- answer that says in its error that there is no such backup ends the search. The replicas before
  -- it are not in mode RW, or were asked and failed.
  pub find_replica-first :
      (volume_name backup_name : Text) (skipped rest : List ControllerReplica)
      (r : ControllerReplica) (w x y : W) (s : BackupStatus)
      → PassesOver volume_name backup_name skipped w x
      → is_rw L r ≡ true
      → fetch L r.address volume_name [] backup_name x ≡ (y, value s)
      → find_replica L volume_name backup_name (skipped ++ r ∷ rest) w ≡ (y, value r.address)
  unfolding find_replica
  find_replica-first volume_name backup_name [] rest r w x y s hs hr hf = rw (hs, hr, hf) refl
  find_replica-first volume_name backup_name (q ∷ qs) rest r w x y s (inl (h, hs)) hr hf =
      rw h (find_replica-first volume_name backup_name qs rest r w x y s hs hr hf)
  find_replica-first volume_name backup_name (q ∷ qs) rest r w x y s (inr (h, z, e, failed, hs)) hr
        hf =
      rw (h, failed) (find_replica-first volume_name backup_name qs rest r z x y s hs hr hf)
