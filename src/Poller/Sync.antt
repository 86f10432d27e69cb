-- ===== src/Poller/Sync.antt =====
-- A channel's `index_`, the poller's map and what the kernel watches agree.
use hvnetpp.Prelude.{
  ℕ, ◌≡◌, ◌≢◌, refl, ◌∙◌, sym, subst, ◌⊎◌, inl, inr, true, false, Option, none, some, Result, ok,
  err, aborted, if◌then◌else◌, arith, Bool-cases, ◌>>=◌,
}
use hvnetpp.Channel.{Channel, Events, Index, fresh, registered, deleted, is_none_event, any_event}
use hvnetpp.Poller.{
  Epoll, ctl_add, ctl_mod, ctl_del, Poller, update_map, update, update_channel, remove_channel,
  update_in_loop, remove,
}

module _ (E : Epoll) where
  open E use {Kernel, watched, ctl, ctl_effect, ctl_del_watched}

  abbrev pub SyncedAt : Index → ℕ → Channel → Poller E → Type 0
  SyncedAt fresh p c q =
      (q.channels c.fd ≡ none)
      × (watched q.kernel c.fd ≡ none)
      × (c.added_to_loop ≡ false)
      × (is_none_event c ≡ true)
  SyncedAt registered p c q =
      (q.channels c.fd ≡ some p)
      × (watched q.kernel c.fd ≡ some c.events)
      × (c.added_to_loop ≡ true)
      × (is_none_event c ≡ false)
  SyncedAt deleted p c q =
      (q.channels c.fd ≡ some p)
      × (watched q.kernel c.fd ≡ none)
      × (c.added_to_loop ≡ true)
      × (is_none_event c ≡ true)

  -- The channel at address `p` and the poller agree.
  abbrev pub IsSynced : ℕ → Channel → Poller E → Type 0
  IsSynced p c q = SyncedAt c.index p c q

  -- Nothing changes at another descriptor.
  abbrev pub KeepsOthers : ℕ → Poller E → Poller E → Type 0
  KeepsOthers fd q q' =
      (f : ℕ) → fd ≢ f → (q'.channels f ≡ q.channels f) × (watched q'.kernel f ≡ watched q.kernel f)

  -- The channel's events are `e`, and the kernel watches for exactly these.
  pub record Watches (p : ℕ) (e : Events) (c : Channel) (q : Poller E) (c' : Channel)
      (q' : Poller E) : Type 0 where
    pub synced : IsSynced p c' q'
    pub same_fd : c'.fd ≡ c.fd
    pub events : c'.events ≡ e
    pub watching : watched q'.kernel c.fd ≡ (if any_event e then some e else none)
    pub others : KeepsOthers c.fd q q'

  abbrev pub Follows : ℕ → Events → Channel → Poller E → Result (Channel × Poller E) → Type 0
  Follows p e c q r =
      ((c' : Channel) × (q' : Poller E) × (r ≡ ok (c', q')) × Watches p e c q c' q')
      ⊎ ((r ≡ err aborted) × (any_event e ≡ true))

  -- `update` of a channel whose events are to become `e`.
  update_add :
      (p : ℕ) (c : Channel) (e : Events) (q : Poller E) (o : Option Kernel)
      → ctl ctl_add c.fd e q.kernel ≡ o
      → any_event e ≡ true
      → Follows p e c q (
          update E ctl_add (record c { events = e; added_to_loop = true }) q >>= λ q'. ok (
            record c { events = e; added_to_loop = true; index = registered },
            record q' { channels = update_map q'.channels c.fd (some p) },
          ))
  unfolding update
  update_add p c e q none h a = inr (rw (h, update) refl, a)
  update_add p c e q (some k) h a = inl (
    record c { events = e; added_to_loop = true; index = registered },
    record {
      kernel = k;
      channels = update_map q.channels c.fd (some p);
      events_size = q.events_size;
    },
    rw (h, update) refl,
    record {
      synced = (
        ground arith,
        ctl_effect ctl_add c.fd e q.kernel k h c.fd ∙ ground arith,
        refl,
        ground (arith, a),
      );
      same_fd = refl;
      events = refl;
      watching = ctl_effect ctl_add c.fd e q.kernel k h c.fd ∙ ground (arith, a);
      others = λ f ne. (ground arith, ctl_effect ctl_add c.fd e q.kernel k h f ∙ ground arith);
    },
  )

  update_mod :
      (p : ℕ) (c : Channel) (e : Events) (q : Poller E) (o : Option Kernel)
      → ctl ctl_mod c.fd e q.kernel ≡ o
      → any_event e ≡ true
      → q.channels c.fd ≡ some p
      → c.index ≡ registered
      → Follows p e c q (
          update E ctl_mod (record c { events = e; added_to_loop = true }) q >>= λ q'.
          ok (record c { events = e; added_to_loop = true }, q'))
  unfolding update
  update_mod p c e q none h a m i = inr (rw (h, update) refl, a)
  update_mod p c e q (some k) h a m i = inl (
    record c { events = e; added_to_loop = true },
    record q { kernel = k },
    rw (h, update) refl,
    record {
      synced =
          rw i (
            m,
            ctl_effect ctl_mod c.fd e q.kernel k h c.fd ∙ ground arith,
            refl,
            ground (arith, a),
          );
      same_fd = refl;
      events = refl;
      watching = ctl_effect ctl_mod c.fd e q.kernel k h c.fd ∙ ground (arith, a);
      others = λ f ne. (refl, ctl_effect ctl_mod c.fd e q.kernel k h f ∙ ground arith);
    },
  )

  update_del :
      (p : ℕ) (c : Channel) (e e' : Events) (q : Poller E)
      → watched q.kernel c.fd ≡ some e'
      → any_event e ≡ false
      → q.channels c.fd ≡ some p
      → Follows p e c q (
          update E ctl_del (record c { events = e; added_to_loop = true }) q >>= λ q'.
          ok (record c { events = e; added_to_loop = true; index = deleted }, q'))
  unfolding update
  update_del p c e e' q w a m =
      let (k, h) = ctl_del_watched c.fd e e' q.kernel w in
      inl (
        record c { events = e; added_to_loop = true; index = deleted },
        record q { kernel = k },
        rw (h, update) refl,
        record {
          synced = (
            m,
            ctl_effect ctl_del c.fd e q.kernel k h c.fd ∙ ground arith,
            refl,
            ground (arith, a),
          );
          same_fd = refl;
          events = refl;
          watching = ctl_effect ctl_del c.fd e q.kernel k h c.fd ∙ ground (arith, a);
          others = λ f ne. (refl, ctl_effect ctl_del c.fd e q.kernel k h f ∙ ground arith);
        },
      )

  -- Through the loop, a channel whose events become `e` is watched for exactly `e`, or not at all
  -- where `e` is empty; the poller and the channel still agree and nothing changes at another
  -- descriptor. It may abort, on an error of `epoll_ctl`, only where `e` is not empty.
  pub update_in_loop_lem :
      (p : ℕ) (c : Channel) (e : Events) (q : Poller E)
      → IsSynced p c q
      → Follows p e c q (update_in_loop E p (record c { events = e }) q)
  unfolding update_in_loop update_channel
  update_in_loop_lem p c e q s = go c.index refl (Bool-cases (any_event e))
    where
      go :
          (i : Index)
          → c.index ≡ i
          → (any_event e ≡ true) ⊎ (any_event e ≡ false)
          → Follows p e c q (update_in_loop E p (record c { events = e }) q)
      go fresh h (inl a) =
          let t : SyncedAt fresh p c q = subst (λ i. SyncedAt i p c q) h s in
          subst (Follows p e c q) (sym (rw (h, a, t.2) refl)) (update_add p c e q _ refl a)
      go fresh h (inr a) =
          let t : SyncedAt fresh p c q = subst (λ i. SyncedAt i p c q) h s in
          inl (
            record c { events = e },
            q,
            rw (h, a, t.2) refl,
            record {
              synced = rw h (t.0, t.1, t.2, ground (arith, a));
              same_fd = refl;
              events = refl;
              watching = t.1 ∙ ground (arith, a);
              others = λ f ne. (refl, refl);
            },
          )
      go registered h (inl a) =
          let t : SyncedAt registered p c q = subst (λ i. SyncedAt i p c q) h s in
          subst (Follows p e c q) (sym (rw (h, a, t.2) refl)) (update_mod p c e q _ refl a t.0 h)
      go registered h (inr a) =
          let t : SyncedAt registered p c q = subst (λ i. SyncedAt i p c q) h s in
          subst (Follows p e c q) (sym (rw (h, a, t.2) refl))
            (update_del p c e c.events q t.1 a t.0)
      go deleted h (inl a) =
          let t : SyncedAt deleted p c q = subst (λ i. SyncedAt i p c q) h s in
          subst (Follows p e c q) (sym (rw (h, a, t.2) refl)) (update_add p c e q _ refl a)
      go deleted h (inr a) =
          let t : SyncedAt deleted p c q = subst (λ i. SyncedAt i p c q) h s in
          inl (
            record c { events = e; added_to_loop = true },
            q,
            rw (h, a, t.2) refl,
            record {
              synced = rw h (t.0, t.1, refl, ground (arith, a));
              same_fd = refl;
              events = refl;
              watching = t.1 ∙ ground (arith, a);
              others = λ f ne. (refl, refl);
            },
          )

  -- `remove` of a channel that agrees with the poller aborts exactly if some event is still of
  -- interest; otherwise the channel and the poller agree, with no address under the descriptor and
  -- nothing watched there, and nothing changes at another descriptor.
  pub remove_lem :
      (p : ℕ) (c : Channel) (q : Poller E)
      → IsSynced p c q
      → ((is_none_event c ≡ true)
          × (c' : Channel) × (q' : Poller E) × (remove E p c q ≡ ok (c', q'))
          × SyncedAt fresh p c' q'
          × (c'.index ≡ fresh)
          × (c'.fd ≡ c.fd)
          × KeepsOthers c.fd q q')
        ⊎ ((is_none_event c ≡ false) × (remove E p c q ≡ err aborted))
  unfolding remove remove_channel
  remove_lem p c q s = go c.index refl
    where
      go :
          (i : Index)
          → c.index ≡ i
          → ((is_none_event c ≡ true)
              × (c' : Channel) × (q' : Poller E) × (remove E p c q ≡ ok (c', q'))
              × SyncedAt fresh p c' q'
              × (c'.index ≡ fresh)
              × (c'.fd ≡ c.fd)
              × KeepsOthers c.fd q q')
            ⊎ ((is_none_event c ≡ false) × (remove E p c q ≡ err aborted))
      go fresh h =
          let t : SyncedAt fresh p c q = subst (λ i. SyncedAt i p c q) h s in
          inl (t.3, c, q, rw (t.2) refl, t, h, refl, λ f ne. (refl, refl))
      go registered h =
          let t : SyncedAt registered p c q = subst (λ i. SyncedAt i p c q) h s in
          inr (t.3, ground (arith, t))
      go deleted h =
          let t : SyncedAt deleted p c q = subst (λ i. SyncedAt i p c q) h s in
          inl (
            t.3,
            record c { added_to_loop = false; index = fresh },
            record q { channels = update_map q.channels c.fd none },
            ground (arith, t, h),
            (ground arith, t.1, refl, t.3),
            refl,
            refl,
            λ f ne. (ground arith, refl),
          )
