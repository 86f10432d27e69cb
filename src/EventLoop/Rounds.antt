-- ===== src/EventLoop/Rounds.antt =====
-- When `loop` returns.
use hvnetpp.Prelude.{ℕ, ◌≡◌, Bool, true, false, List, [], ◌∷◌, Option, none, some, ◌||◌}
use hvnetpp.EventLoop.{Loop, Act, queues, quits, Handler, reads_wakeup, callback, quit_elsewhere}

abbrev or_else : Loop → Option Loop → Loop
or_else d none = d
or_else d (some l) = l

-- Whether some action is `quit`.
abbrev pub any_quits : List Act → Bool
any_quits [] = false
any_quits (queues f ∷ as') = any_quits as'
any_quits (quits ∷ as') = true

abbrev pub handlers_quit : List Handler → Bool
handlers_quit [] = false
handlers_quit (reads_wakeup ∷ hs) = handlers_quit hs
handlers_quit (callback acts ∷ hs) = any_quits acts || handlers_quit hs
handlers_quit (quit_elsewhere ∷ hs) = true

module _ (body : ℕ → List Act) where
  -- Of a state that is there.
  abbrev QuitsIn : Option Loop → Type 0
  QuitsIn none = Unit {0}
  QuitsIn (some l) = l.quit ≡ true
