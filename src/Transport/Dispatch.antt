-- ===== src/Transport/Dispatch.antt =====
-- How many messages a session writes.
use asl3_api.Prelude.{
  ℕ, ◌+◌, ◌≤◌, String, false, not, Option, none, some, [], ◌∷◌, any, all_chars, put, Dict, length,
  length-append, ◌≡◌, arith, inl, inr, Bool-cases,
}
use asl3_api.Errors.{protocol_error, Result, ok, err}
use asl3_api.Effects.{bind_keeps, lift, require}
use asl3_api.Transport.Session.{Session, is_unbroken, payload, cross, send}
use asl3_api.Transport.Client.{Peer, Login, new_session, action, login_fields, session, dispatch}

-- A barrier that raises lets nothing be written.
abbrev pub writes : Option (Result (Unit {0})) → ℕ
writes (some (err e)) = 0
writes _ = 1

send-length :
    (action_id : String) (fields : Dict String) (b : Option (Result (Unit {0}))) (s : Session)
    → length (send action_id fields b s).1.written ≤ length s.written + writes b
unfolding send cross
send-length action_id fields b s =
    elim (Bool-cases (
      any (λ (e : String × String). not (all_chars is_unbroken e.1))
        (put fields "ActionID" action_id))) [
          | inl broken ↦ rw broken (omega arith)
          | inr clean ↦ crossing b clean
        ]
  where
    crossing :
        (w : Option (Result (Unit {0})))
        → any
            (λ (e : String × String). not (all_chars is_unbroken e.1))
            (put fields "ActionID" action_id)
          ≡ false
        → length (send action_id fields w s).1.written ≤ length s.written + writes w
    crossing none clean =
        rw clean
          (omega (arith, length-append s.written (payload (put fields "ActionID" action_id) ∷ [])))
    crossing (some (ok u)) clean = elim (Bool-cases s.control_attempted) [
      | inl used ↦ rw (clean, used) (omega arith)
      | inr fresh ↦
          rw (clean, fresh)
            (omega
              (arith, length-append s.written (payload (put fields "ActionID" action_id) ∷ [])))
    ]
    crossing (some (err e)) clean = elim (Bool-cases s.control_attempted) [
      | inl used ↦ rw (clean, used) (omega arith)
      | inr fresh ↦ rw (clean, fresh) (omega arith)
    ]

module _ (peer : Peer) (login : Login) where
  action-length :
      (k : ℕ) (fields : Dict String) (b : Option (Result (Unit {0}))) (s : Session)
      → length (action peer login k fields b s).1.written ≤ length s.written + writes b
  unfolding action
  action-length k fields b s =
      bind_keeps (λ (t : Session). length t.written ≤ length s.written + writes b)
        (send (peer.action_id k) fields b) _ s (send-length (peer.action_id k) fields b s)
        (λ a e. send-length (peer.action_id k) fields b s)

  session-length : length (session peer login new_session).1.written ≤ 1
  unfolding session
  session-length =
      let AtMostOne = λ (t : Session). length t.written ≤ 1 in
      let answered = action-length 0 (login_fields peer login) none new_session in
      bind_keeps AtMostOne (lift peer.opens) _ new_session (omega arith) λ a e.
        bind_keeps AtMostOne (lift peer.greets) _ new_session (omega arith) λ greeted f.
          bind_keeps AtMostOne (require (not greeted) (protocol_error "Invalid AMI banner")) _
            new_session (omega arith)
            λ u g.
              bind_keeps AtMostOne (action peer login 0 (login_fields peer login) none) _
                new_session (omega (arith, answered)) λ answer h. omega (arith, answered)

  -- A dispatch writes the login and the control message at most, and if its barrier raises, it writes
  -- the login at most.
  pub dispatch-length :
      (command : String) (b : Result (Unit {0}))
      → length (dispatch peer login command b new_session).1.written ≤ 1 + writes (some b)
  unfolding dispatch
  dispatch-length command b =
      bind_keeps (λ (t : Session). length t.written ≤ 1 + writes (some b)) (session peer login) _
        new_session (omega (arith, session-length))
        (λ a e. omega (
          arith,
          session-length,
          action-length 1 (("Action", "Command") ∷ ("Command", command) ∷ []) (some b)
              (session peer login new_session).1,
        ))
