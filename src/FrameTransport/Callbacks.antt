-- ===== src/FrameTransport/Callbacks.antt =====
-- can-lite/core/CanFrameTransport.cpp: what becomes of the completion handlers.
use mathlib.Core.List.{Perm, perm_append_singleton}
use mathlib.Core.List.Perm
use can_lite.Base.{
  ◌≡◌, ◌≤◌, refl, sym, subst, ap, length, Bool, true, false, Option, none, some, List, [], ◌∷◌,
  ◌++◌, map, arith, if◌then◌else◌, Bool-cases, inl, inr,
}
use can_lite.FrameTransport.{
  PendingFrame, Transport, Event, send_data, done, notified, insert, back, pop_back, submit,
  enqueue, on_send_complete, retry_current, send_next_queued, notify_send,
}
use can_lite.FrameTransport.Insert.{Queue, insert-perm, pop_back-append}
use can_lite.FrameTransport.Invariant.{Outcome, inserted, displaced, refused, enqueue-Outcome}

reverse_three :
    {Done : Type 0} (a b c : Done) (l : List Done) → Perm (a ∷ b ∷ c ∷ l) (c ∷ b ∷ a ∷ l)
reverse_three a b c l =
    Perm.trans (Perm.swap b a (c ∷ l))
      (Perm.trans (Perm.cons b (Perm.swap c a l)) (Perm.swap c b (a ∷ l)))

module _ {Ident Done : Type 0} where
  abbrev pub handler : Option (PendingFrame Ident Done) → List Done
  handler none = []
  handler (some frame) = frame.on_done ∷ []

  -- The handlers of the queue, in its order.
  abbrev pub handlers : Queue Ident Done → List Done
  handlers = map (λ frame. frame.on_done)

  -- The handlers still to be called.
  abbrev pub outstanding : Transport Ident Done → List Done
  outstanding t = handler t.current ++ handlers t.send_queue

  -- The handlers that are called.
  abbrev pub finished : List (Event Ident Done) → List Done
  finished [] = []
  finished (done d _ ∷ events) = d ∷ finished events
  finished (send_data _ _ ∷ events) = finished events
  finished (notified ∷ events) = finished events

  finished-notify : (t : Transport Ident Done) → finished (notify_send t) ≡ []
  finished-notify t = ground arith

  handlers-insert :
      (f : PendingFrame Ident Done) (q : Queue Ident Done)
      → Perm (handlers (insert f q)) (f.on_done ∷ handlers q)
  handlers-insert f q = Perm.map (λ frame. frame.on_done) (insert-perm f q)

  handlers-pop_back :
      (last : PendingFrame Ident Done) (q : Queue Ident Done)
      → back q ≡ some last
      → Perm (last.on_done ∷ handlers (pop_back q)) (handlers q)
  handlers-pop_back last q e = Perm.symm (
      subst (λ r. Perm (handlers r) (last.on_done ∷ handlers (pop_back q)))
        (sym (pop_back-append q last e))
        (Perm.map (λ frame. frame.on_done) (perm_append_singleton last (pop_back q))))

  -- The handlers called and those still outstanding are, as a multiset, the given ones.
  abbrev Balanced : List (Event Ident Done) → Transport Ident Done → List Done → Type 0
  Balanced events t expected = Perm (finished events ++ outstanding t) expected

  Outcome-Balanced :
      (t : Transport Ident Done) (busy f : PendingFrame Ident Done)
      (r : Transport Ident Done × List (Event Ident Done) × Bool)
      → t.current ≡ some busy
      → Outcome t f r
      → Balanced r.1 r.0 (if r.2 then f.on_done ∷ outstanding t else outstanding t)
  Outcome-Balanced t busy f r c (inserted room e) =
      rw (e, c, finished-notify t)
        (Perm.trans (Perm.cons busy.on_done (handlers-insert f t.send_queue))
          (Perm.swap f.on_done busy.on_done (handlers t.send_queue)))
  Outcome-Balanced t busy f r c (displaced last k crowded b less e) =
      rw (e, c, finished-notify t)
        (Perm.trans
          (Perm.cons last.on_done
            (Perm.cons busy.on_done (handlers-insert f (pop_back t.send_queue))))
          (Perm.trans
            (reverse_three last.on_done busy.on_done f.on_done (handlers (pop_back t.send_queue)))
            (Perm.cons f.on_done (Perm.cons busy.on_done (handlers-pop_back last t.send_queue b)))))
  Outcome-Balanced t busy f r c (refused last k crowded b more e) = rw e (Perm.refl _)

  submit-Balanced_at :
      (t : Transport Ident Done) (c : Option (PendingFrame Ident Done))
      (f : PendingFrame Ident Done)
      → let busy = record t { current = c } in
        let r = submit busy f in
        Balanced r.1 r.0 (if r.2 then f.on_done ∷ outstanding busy else outstanding busy)
  unfolding submit
  submit-Balanced_at t none f = rw (finished-notify t) (Perm.refl _)
  submit-Balanced_at t (some g) f =
      let busy = record t { current = some g } in
      Outcome-Balanced busy g f (enqueue busy f) refl (enqueue-Outcome busy f)

  -- The handlers that a submission calls, and those outstanding after it, are together those that
  -- were outstanding, with that of the new frame if and only if it was accepted: an accepted frame's
  -- handler is outstanding or called, a refused frame's handler is neither, and none is lost.
  pub submit-Balanced :
      (t : Transport Ident Done) (f : PendingFrame Ident Done)
      → let (t', events, accepted) = submit t f in
        Perm
          (finished events ++ outstanding t')
          (if accepted then f.on_done ∷ outstanding t else outstanding t)
  submit-Balanced t f = submit-Balanced_at t t.current f

  retry_current_events :
      (t : Transport Ident Done) (frame : PendingFrame Ident Done) (success : Bool)
      → let r = retry_current t frame success in
        (finished r.1 ≡ [])
        × (r.0.send_queue ≡ t.send_queue)
        × (r.0.current ≡ t.current)
        × (r.2 ≡ true → success ≡ false)
  unfolding retry_current
  retry_current_events t frame success = ground arith

  -- The handlers called are a first part of those outstanding before, with that of the frame on its
  -- way at most.
  abbrev Released : List (Event Ident Done) → Transport Ident Done → Transport Ident Done → Type 0
  Released events t' t =
      (finished events ++ outstanding t' ≡ outstanding t)
      × (length (finished events) ≤ length (handler t.current))

  next-Balanced :
      (t : Transport Ident Done) (q : Queue Ident Done) (d : Done) (success : Bool)
      → let (t', next) = send_next_queued (record t { send_queue = q }) in
        (finished (next ++ done d success ∷ []) ≡ d ∷ []) × (outstanding t' ≡ handlers q)
  unfolding send_next_queued
  next-Balanced t [] d success = (refl, refl)
  next-Balanced t (x ∷ q) d success = (refl, refl)

  complete-Balanced_at :
      (t : Transport Ident Done) (c : Option (PendingFrame Ident Done)) (success : Bool)
      → let (t', events) = on_send_complete (record t { current = c }) success in
        Released events t' (record t { current = c })
  unfolding on_send_complete
  complete-Balanced_at t none success = (refl, omega arith)
  complete-Balanced_at t (some f) success =
      let busy = record t { current = some f } in
      let (e, q, c, _) = retry_current_events busy f success in
      elim (Bool-cases (retry_current busy f success).2) [
        | inl again ↦ rw (again, e, q, c) (refl, omega arith)
        | inr over ↦
            let t' = (retry_current busy f success).0 in
            let (called, kept) = next-Balanced t' t'.send_queue f.on_done success in
            rw over
              (rw (called, kept) (ap (λ p. f.on_done ∷ handlers p) q), rw called (omega arith))
      ]

  -- The end of a transmission calls at most one handler, and none when no frame is on its way; the
  -- handlers called and then those outstanding after it are, one by one and in order, those
  -- outstanding before, that of the frame on its way first.
  pub on_send_complete-Balanced :
      (t : Transport Ident Done) (success : Bool)
      → let (t', events) = on_send_complete t success in
        (finished events ++ outstanding t' ≡ outstanding t)
        × (length (finished events) ≤ length (handler t.current))
  on_send_complete-Balanced t success = complete-Balanced_at t t.current success
