-- ===== src/Transport/Reads.antt =====
-- What the reading sessions write.
use asl3_api.Prelude.{
  ℕ, String, true, false, not, none, List, [], ◌∷◌, any, all_chars, put, Dict, All, All-append,
  str_eq, eq_refl, ◌≡◌, refl, arith, Bool-cases, inl, inr,
}
use asl3_api.Errors.{protocol_error}
use asl3_api.Effects.{Effect, bind_keeps, lift, require, pure, ◌>>=◌, ◌>>◌}
use asl3_api.Transport.{Message}
use asl3_api.Transport.Session.{Session, is_unbroken, payload, cross, send}
use asl3_api.Transport.Client.{
  Peer, Login, new_session, action, login_fields, session, status_fields, observe,
  asterisk_version_fields, app_rpt_version_fields, software_versions,
}

-- A session that has attempted no control, and has written messages of the list only.
pub record WritesOnly (messages : List String) (s : Session) : Type 0 where
  pub uncontrolled : s.control_attempted ≡ false
  pub among : All (λ w. any (str_eq w) messages ≡ true) s.written

module _ (messages : List String) where
  send-WritesOnly :
      (action_id : String) (fields : Dict String) (s : Session)
      → any (str_eq (payload (put fields "ActionID" action_id))) messages ≡ true
      → WritesOnly messages s
      → WritesOnly messages (send action_id fields none s).1
  unfolding send cross
  send-WritesOnly action_id fields s m h =
      elim (Bool-cases (
        any (λ (e : String × String). not (all_chars is_unbroken e.1))
          (put fields "ActionID" action_id))) [
            | inl broken ↦ rw broken h
            | inr clean ↦ rw clean (record {
              uncontrolled = h.uncontrolled;
              among = All-append _ s.written _ h.among (m, tt);
            })
          ]

  module _ (peer : Peer) (login : Login) where
    abbrev message : ℕ → Dict String → String
    message k fields = payload (put fields "ActionID" (peer.action_id k))

    action-WritesOnly :
        (k : ℕ) (fields : Dict String) (s : Session)
        → any (str_eq (message k fields)) messages ≡ true
        → WritesOnly messages s
        → WritesOnly messages (action peer login k fields none s).1
    unfolding action
    action-WritesOnly k fields s m h =
        bind_keeps (WritesOnly messages) (send (peer.action_id k) fields none) _ s
          (send-WritesOnly (peer.action_id k) fields s m h)
          (λ a e. send-WritesOnly (peer.action_id k) fields s m h)

    session-WritesOnly :
        any (str_eq (message 0 (login_fields peer login))) messages ≡ true
        → WritesOnly messages (session peer login new_session).1
    unfolding session
    session-WritesOnly m =
        let start : WritesOnly messages new_session = record { uncontrolled = refl; among = tt } in
        bind_keeps (WritesOnly messages) (lift peer.opens) _ new_session start λ a e.
          bind_keeps (WritesOnly messages) (lift peer.greets) _ new_session start λ greeted f.
            bind_keeps (WritesOnly messages)
              (require (not greeted) (protocol_error "Invalid AMI banner")) _ new_session start
              λ u g.
                bind_keeps (WritesOnly messages)
                  (action peer login 0 (login_fields peer login) none) _ new_session
                  (action-WritesOnly 0 (login_fields peer login) new_session m start)
                  λ answer h. action-WritesOnly 0 (login_fields peer login) new_session m start

module _ (peer : Peer) (login : Login) where
  -- The login and the two actions of a reading session.
  abbrev pub reading : (first second : Dict String) → List String
  reading first second =
      payload (put (login_fields peer login) "ActionID" (peer.action_id 0))
      ∷ payload (put first "ActionID" (peer.action_id 1))
      ∷ payload (put second "ActionID" (peer.action_id 2))
      ∷ []

  in_reading :
      (x y z : String)
      → (any (str_eq x) (x ∷ y ∷ z ∷ []) ≡ true)
        × (any (str_eq y) (x ∷ y ∷ z ∷ []) ≡ true)
        × (any (str_eq z) (x ∷ y ∷ z ∷ []) ≡ true)
  in_reading x y z =
      (ground (arith, eq_refl x), ground (arith, eq_refl y), ground (arith, eq_refl z))

  abbrev two_reads : (first second : Dict String) → Effect Session (Message × Message)
  two_reads first second = do
    session peer login
    a ← action peer login 1 first none
    b ← action peer login 2 second none
    pure (a, b)

  read-WritesOnly :
      (first second : Dict String)
      → WritesOnly (reading first second) (two_reads first second new_session).1
  read-WritesOnly first second =
      let (one, two, three) =
        in_reading (payload (put (login_fields peer login) "ActionID" (peer.action_id 0)))
          (payload (put first "ActionID" (peer.action_id 1)))
          (payload (put second "ActionID" (peer.action_id 2))) in
      let ms = reading first second in
      let begun = session-WritesOnly ms peer login one in
      bind_keeps (WritesOnly ms) (session peer login) _ new_session begun λ u e.
        let s = (session peer login new_session).1 in
        let asked = action-WritesOnly ms peer login 1 first s two begun in
        bind_keeps (WritesOnly ms) (action peer login 1 first none) _ s asked λ a f.
          let s1 = (action peer login 1 first none s).1 in
          let done = action-WritesOnly ms peer login 2 second s1 three asked in
          bind_keeps (WritesOnly ms) (action peer login 2 second none) _ s1 done λ b g. done

  -- Whatever the peer does, an observation writes only its login, XStat and SawStat, a version probe
  -- only its login and its two constant reads, and neither attempts a control action.
  pub observe-WritesOnly :
      (node : String)
      → WritesOnly
          (reading
            (status_fields peer login "XStat" node)
            (status_fields peer login "SawStat" node))
          (observe peer login node new_session).1
        × WritesOnly
            (reading (asterisk_version_fields peer login) (app_rpt_version_fields peer login))
            (software_versions peer login new_session).1
  unfolding observe software_versions
  observe-WritesOnly node = (
    read-WritesOnly (status_fields peer login "XStat" node)
        (status_fields peer login "SawStat" node),
    read-WritesOnly (asterisk_version_fields peer login) (app_rpt_version_fields peer login),
  )
