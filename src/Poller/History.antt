-- ===== src/Poller/History.antt =====
-- All channels of a loop with its poller, in any history of changes, removals and replacements.
use native.Mathlib.Decide.{ℕ_discrete}
use hvnetpp.Prelude.{
  ℕ, ◌≡◌, ◌≢◌, refl, ◌∙◌, sym, ap, subst, ◌⊎◌, inl, inr, true, false, List, [], ◌∷◌, none, some,
  Result, ok, err, aborted, if◌then◌else◌, arith, Bool-cases, ◌>>=◌, ◌==◌, ==_iff,
}
use hvnetpp.Channel.{Channel, Events, Index, fresh, registered, deleted, is_none_event}
use hvnetpp.Poller.{Epoll, Poller, create, init_event_list_size, Channels, update_in_loop, remove}
use hvnetpp.Poller.Sync.{IsSynced, SyncedAt, KeepsOthers, update_in_loop_lem, remove_lem}

pub data Event : Type 0 where
  -- `enableReading` and its kin of the channel at the address, whose events become these.
  changes : ℕ → Events → Event
  removes : ℕ → Event
  -- A channel is deleted and another one made at its address.
  replaces : ℕ → Channel → Event

abbrev pub put : ℕ → Channel → Channels → Channels
put p c m a = if p == a then c else m a

at_put :
    (p : ℕ) (c : Channel) (m : Channels) (a : ℕ)
    → ((p ≡ a) × (put p c m a ≡ c)) ⊎ ((p ≢ a) × (put p c m a ≡ m a))
at_put p c m a = elim (Bool-cases (p == a)) [
  | inl e ↦ inl ((==_iff p a).0 e, rw (e) refl)
  | inr e ↦ inr (ground arith, rw (e) refl)
]

module _ (E : Epoll) where
  open E use {Kernel, watched}

  -- `at` is the channel at each address.
  pub record World : Type 0 where
    pub at : Channels
    pub poller : Poller E

  abbrev stored : ℕ → Channels → Channel × Poller E → Result World
  stored p m (c, q) = ok (record { at = put p c m; poller = q })

  unfoldable pub happen : Event → World → Result World
  unfolding update_in_loop remove
  happen (changes p e) w =
      update_in_loop E p (record (w.at p) { events = e }) w.poller >>= stored p w.at
  happen (removes p) w = remove E p (w.at p) w.poller >>= stored p w.at
  happen (replaces p c) w = ok (record w { at = put p c w.at })

  unfoldable pub happen_all : List Event → World → Result World
  unfolding happen
  happen_all [] w = ok w
  happen_all (e ∷ es) w = happen e w >>= happen_all es

  -- A channel that is removed waits for nothing, as its owners see to; one that is deleted was
  -- removed or never added; the new one was never added, and its descriptor has no other channel.
  abbrev pub IsPossible : Event → World → Type 0
  IsPossible (changes p e) w = Unit {0}
  IsPossible (removes p) w = is_none_event (w.at p) ≡ true
  IsPossible (replaces p c) w =
      ((w.at p).index ≡ fresh)
      × (c.index ≡ fresh)
      × (c.added_to_loop ≡ false)
      × (is_none_event c ≡ true)
      × ((a : ℕ) → p ≢ a → (w.at a).fd ≢ c.fd)

  abbrev pub ArePossible : List Event → World → Type 0
  ArePossible [] w = Unit {0}
  ArePossible (e ∷ es) w = IsPossible e w × ((w' : World) → happen e w ≡ ok w' → ArePossible es w')

  -- No descriptor has two channels, each channel agrees with the poller, and where there is no
  -- channel nothing is known or watched.
  pub record AllSynced (w : World) : Type 0 where
    pub apart : (a b : ℕ) → a ≢ b → (w.at a).fd ≢ (w.at b).fd
    pub each : (a : ℕ) → IsSynced E a (w.at a) w.poller
    pub no_other :
        (f : ℕ)
        → ((a : ℕ) → (w.at a).fd ≢ f)
        → (w.poller.channels f ≡ none) × (watched w.poller.kernel f ≡ none)

  abbrev pub Goes : Result World → Type 0
  Goes r = ((w : World) × (r ≡ ok w) × AllSynced w) ⊎ (r ≡ err aborted)

  -- Agreement depends on the poller at the channel's descriptor alone.
  SyncedAt-keep :
      (i : Index) (a : ℕ) (c : Channel) (q q' : Poller E)
      → q'.channels c.fd ≡ q.channels c.fd
      → watched q'.kernel c.fd ≡ watched q.kernel c.fd
      → SyncedAt E i a c q
      → SyncedAt E i a c q'
  SyncedAt-keep fresh a c q q' e f s = (e ∙ s.0, f ∙ s.1, s.2, s.3)
  SyncedAt-keep registered a c q q' e f s = (e ∙ s.0, f ∙ s.1, s.2, s.3)
  SyncedAt-keep deleted a c q q' e f s = (e ∙ s.0, f ∙ s.1, s.2, s.3)

  -- One channel keeps its descriptor and agrees again, and nothing changes at another descriptor.
  put-AllSynced :
      (p : ℕ) (c : Channel) (q : Poller E) (w : World)
      → AllSynced w
      → c.fd ≡ (w.at p).fd
      → IsSynced E p c q
      → KeepsOthers E ((w.at p).fd) w.poller q
      → AllSynced (record { at = put p c w.at; poller = q })
  put-AllSynced p c q w v same s k = record {
    apart = λ a b n e. v.apart a b n (sym (fd_same a) ∙ e ∙ fd_same b);
    each = λ a. elim (at_put p c w.at a) [
      | inl (e, x) ↦ subst (λ d. IsSynced E a d q) (sym x) (subst (λ z. IsSynced E z c q) e s)
      | inr (n, x) ↦
          let (g, h) = k ((w.at a).fd) (v.apart p a n) in
          subst (λ d. IsSynced E a d q) (sym x)
            (SyncedAt-keep ((w.at a).index) a (w.at a) w.poller q g h (v.each a))
    ];
    no_other = λ f n.
        let old : (a : ℕ) → (w.at a).fd ≢ f = λ a e. n a (fd_same a ∙ e) in
        let (g, h) = k f (old p) in let (x, y) = v.no_other f old in (g ∙ x, h ∙ y);
  }
    where
      fd_same : (a : ℕ) → (put p c w.at a).fd ≡ (w.at a).fd
      fd_same a = elim (at_put p c w.at a) [
        | inl (e, x) ↦ ap (λ d. d.fd) x ∙ same ∙ ap (λ z. (w.at z).fd) e
        | inr (n, x) ↦ ap (λ d. d.fd) x
      ]

  -- A channel that was removed is replaced.
  replace-AllSynced :
      (p : ℕ) (c : Channel) (w : World)
      → AllSynced w
      → IsPossible (replaces p c) w
      → AllSynced (record w { at = put p c w.at })
  replace-AllSynced p c w v (gone, new, added, none_asked, free) = record {
    apart = λ a b n e. elim (at_put p c w.at a) [
      | inl (f, x) ↦ elim (at_put p c w.at b) [
        | inl (g, y) ↦ n (sym f ∙ g)
        | inr (g, y) ↦ free b g (sym (ap (λ d. d.fd) y) ∙ sym e ∙ ap (λ d. d.fd) x)
      ]
      | inr (f, x) ↦ elim (at_put p c w.at b) [
        | inl (g, y) ↦ free a f (sym (ap (λ d. d.fd) x) ∙ e ∙ ap (λ d. d.fd) y)
        | inr (g, y) ↦ v.apart a b n (sym (ap (λ d. d.fd) x) ∙ e ∙ ap (λ d. d.fd) y)
      ]
    ];
    each = λ a. elim (at_put p c w.at a) [
      | inl (e, x) ↦
          subst (λ d. IsSynced E a d w.poller) (sym x) (subst (λ z. IsSynced E z c w.poller) e made)
      | inr (n, x) ↦ subst (λ d. IsSynced E a d w.poller) (sym x) (v.each a)
    ];
    no_other = λ f n. bare f (λ a m e. elim (at_put p c w.at a) [
      | inl (g, x) ↦ m g
      | inr (g, x) ↦ n a (ap (λ d. d.fd) x ∙ e)
    ]);
  }
    where
      old : SyncedAt E fresh p (w.at p) w.poller
      old = subst (λ i. SyncedAt E i p (w.at p) w.poller) gone (v.each p)

      -- Nothing is known or watched at a descriptor that no other channel has.
      bare :
          (f : ℕ)
          → ((a : ℕ) → p ≢ a → (w.at a).fd ≢ f)
          → (w.poller.channels f ≡ none) × (watched w.poller.kernel f ≡ none)
      bare f n = elim (ℕ_discrete ((w.at p).fd) f) [
        | yes e ↦
            subst (λ x. (w.poller.channels x ≡ none) × (watched w.poller.kernel x ≡ none)) e
              (old.0, old.1)
        | no d ↦
            v.no_other f (λ a. elim (ℕ_discrete p a) [
              | yes e ↦ subst (λ x. (w.at x).fd ≢ f) e d
              | no m ↦ n a m
            ])
      ]

      made : IsSynced E p c w.poller
      made =
          let (x, y) = bare c.fd free in
          subst (λ i. SyncedAt E i p c w.poller) (sym new) (x, y, added, none_asked)

  happen-Goes : (e : Event) (w : World) → AllSynced w → IsPossible e w → Goes (happen e w)
  unfolding happen
  happen-Goes (changes p e) w v i = elim (update_in_loop_lem E p (w.at p) e w.poller (v.each p)) [
    | inl (c, q, r, x) ↦
        inl
          (_, ap (λ m. m >>= stored p w.at) r, put-AllSynced p c q w v x.same_fd x.synced x.others)
    | inr (r, a) ↦ inr (ap (λ m. m >>= stored p w.at) r)
  ]
  happen-Goes (removes p) w v i = elim (remove_lem E p (w.at p) w.poller (v.each p)) [
    | inl (n, c, q, r, x, index, same, others) ↦ inl (
      _,
      ap (λ m. m >>= stored p w.at) r,
      put-AllSynced p c q w v same (subst (λ j. SyncedAt E j p c q) (sym index) x) others,
    )
    | inr (n, r) ↦ inr (ap (λ m. m >>= stored p w.at) r)
  ]
  happen-Goes (replaces p c) w v i = inl (_, refl, replace-AllSynced p c w v i)

  -- With all channels and the poller in agreement, whatever is enabled, disabled, removed and replaced:
  -- either the process aborts, or all channels agree with the poller again, no descriptor has two, and
  -- one that has none is neither known nor watched.
  pub happen_all-Goes :
      (es : List Event) (w : World) → AllSynced w → ArePossible es w → Goes (happen_all es w)
  unfolding happen_all
  happen_all-Goes [] w v p = inl (w, refl, v)
  happen_all-Goes (e ∷ es) w v (p, q) = elim (happen-Goes e w v p) [
    | inl (w', g, v') ↦
        subst Goes (sym (ap (λ x. x >>= happen_all es) g)) (happen_all-Goes es w' v' (q w' g))
    | inr g ↦ inr (ap (λ x. x >>= happen_all es) g)
  ]

  -- A new poller, of an instance that watches nothing, agrees with channels that were never added.
  pub create-AllSynced :
      (k : Kernel) (m : Channels)
      → ((f : ℕ) → watched k f ≡ none)
      → ((a b : ℕ) → a ≢ b → (m a).fd ≢ (m b).fd)
      → ((a : ℕ)
          → ((m a).index ≡ fresh) × ((m a).added_to_loop ≡ false) × (is_none_event (m a) ≡ true))
      → (q : Poller E) × (create E (some k) ≡ ok q) × AllSynced (record { at = m; poller = q })
  unfolding create
  create-AllSynced k m nothing apart unused = (
    new,
    refl,
    record {
      apart = apart;
      each = λ a.
          let (i, d, e) = unused a in
          subst (λ j. SyncedAt E j a (m a) new) (sym i) (refl, nothing ((m a).fd), d, e);
      no_other = λ f n. (refl, nothing f);
    },
  )
    where
      new : Poller E
      new = record { kernel = k; channels = λ f. none; events_size = init_event_list_size }
