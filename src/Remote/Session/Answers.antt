-- ===== src/Remote/Session/Answers.antt =====
-- loader/remote/session.go: every request that arrives can be answered.
use egop.Prelude.{true, List, ◌∷◌, ◌++◌, ◌≡◌}
use egop.Remote.Frame.{Frame, Codec}
use egop.Remote.Session.{Peer, Session, settle, write_reply}
use egop.Remote.Session.Balance.{Serving}
use egop.Remote.Session.Balance

module _ (c : Codec) where
  -- The session goes on by nothing but its own work: handlers that run end, and replies that wait are
  -- written, in any order. No frame arrives, and no request is made.
  pub data Drains : Session → Session → Type 0 where
    stays : (s : Session) → Drains s s
    ends :
        {t : Session} (s : Session) (before after : List (Peer × Frame)) (job : Peer × Frame)
        → s.jobs ≡ before ++ job ∷ after
        → Drains (settle c job (before ++ after) s) t
        → Drains s t
    answers :
        {t : Session} (s : Session) (before after : List Frame) (f : Frame)
        → s.replies ≡ before ++ f ∷ after
        → Drains (write_reply true f (before ++ after) s) t
        → Drains s t
