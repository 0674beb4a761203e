-- ===== src/Node/Session/Extended.antt =====
-- What recording frames does to the sessions of a store, stated without the code that does it.
use openclaw_p2p.Prelude.{
  eq_refl, ap, refl, ◌∙◌, ◌∷◌, false, ◌==◌, none, ◌++◌, true, some, if◌then◌else◌, [], List, ◌≡◌,
  Bool, Option, String,
}
use openclaw_p2p.Clock.{Time}
use openclaw_p2p.Store.Records.{session_or_zero, session_after}
use openclaw_p2p.Store.State.{NegotiationSession}
use openclaw_p2p.Negotiate.Frame.{NegotiationFrame}
use openclaw_p2p.GoMap.{GoMap, get}
use mathlib.Core.List.{append_assoc}

-- The frames of a session, none of which an unknown session has.
abbrev pub frames_of : Option NegotiationSession → List NegotiationFrame
frames_of none = []
frames_of (some session) = session.frames

-- A session that is there, and holds the frames from before and then the added ones, in this order;
-- its state and its reference are those of the last one, and it was changed at `now`.
pub record IsExtended (now : Time) (added : List NegotiationFrame) (last : NegotiationFrame)
    (before after : Option NegotiationSession) : Type 0 where
  pub session : NegotiationSession
  pub held : after ≡ some session
  pub frames : session.frames ≡ frames_of before ++ added
  pub session_id : session.session_id ≡ last.session_id
  pub ref_id : session.ref_id ≡ last.ref_id
  pub state : session.state ≡ last.op
  pub updated_at : session.updated_at ≡ now

-- The session of the last frame gets the added frames, and no other session changes.
pub record GetsFrames (now : Time) (added : List NegotiationFrame) (last : NegotiationFrame)
    (before after : GoMap NegotiationSession) : Type 0 where
  pub extended : IsExtended now added last (get last.session_id before) (get last.session_id after)
  pub others :
      (k : String) → get k after ≡ (if last.session_id == k then get k after else get k before)

session_or_zero-frames : (o : Option NegotiationSession) → (session_or_zero o).frames ≡ frames_of o
session_or_zero-frames none = refl
session_or_zero-frames (some session) = refl

if_other : {A : Type 0} (b : Bool) (x y z : A) → x ≡ (if b then y else z) → x ≡ (if b then x else z)
if_other true x y z h = refl
if_other false x y z h = h

-- the value at the frame's own key
if_own : {A : Type 0} (s : String) (x y z : A) → x ≡ (if s == s then y else z) → x ≡ y
if_own s x y z h = h ∙ ap (λ b. if b then y else z) (eq_refl s)

pub gets_frame :
    (now : Time) (frame : NegotiationFrame) (before after : GoMap NegotiationSession)
    → ((k : String)
        → get k after ≡ (
            if frame.session_id == k
            then some (session_after now frame (session_or_zero (get k before)))
            else get k before))
    → GetsFrames now (frame ∷ []) frame before after
gets_frame now frame before after h =
    let old = get frame.session_id before in
    record {
      extended = record {
        session = session_after now frame (session_or_zero old);
        held = if_own frame.session_id _ _ _ (h frame.session_id);
        frames = ap (λ fs. fs ++ frame ∷ []) (session_or_zero-frames old);
        session_id = refl;
        ref_id = refl;
        state = refl;
        updated_at = refl;
      };
      others = λ k. if_other (frame.session_id == k) _ _ _ (h k);
    }

pub gets_both :
    (now answer_now : Time) (frame answer : NegotiationFrame)
    (before after : GoMap NegotiationSession)
    → ((k : String)
        → get k after ≡ (
            if answer.session_id == k
            then some (
                session_after answer_now answer
                  (session_after now frame (session_or_zero (get k before))))
            else get k before))
    → GetsFrames answer_now (frame ∷ answer ∷ []) answer before after
gets_both now answer_now frame answer before after h = record {
  extended = record {
    session =
        session_after answer_now answer
          (session_after now frame (session_or_zero (get answer.session_id before)));
    held = if_own answer.session_id _ _ _ (h answer.session_id);
    frames =
        append_assoc (session_or_zero (get answer.session_id before)).frames (frame ∷ [])
          (answer ∷ [])
        ∙ ap (λ fs. fs ++ frame ∷ answer ∷ [])
            (session_or_zero-frames (get answer.session_id before));
    session_id = refl;
    ref_id = refl;
    state = refl;
    updated_at = refl;
  };
  others = λ k. if_other (answer.session_id == k) _ _ _ (h k);
}
