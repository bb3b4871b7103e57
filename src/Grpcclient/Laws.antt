-- ===== src/Grpcclient/Laws.antt =====
-- The connections that grpcclient/client.go makes and closes.
use mathlib.Core.List.{append-nil, append_assoc}
use go_rkvstcommon.Prelude.{
  ℕ, ◌≡◌, refl, sym, ap, ◌∙◌, String, Option, none, some, List, [], ◌∷◌, ◌++◌, map, nat_eq,
  if◌then◌else◌, arith, nat_eq_iff,
}
use go_rkvstcommon.Prelude.Outcome.{Outcome, ok, err, panic}
use go_rkvstcommon.Grpcclient.{
  Call, new_client, close_connection, Client, World, close_from, close, opened, open_from,
  open_client, new_grpc_client, with_dial_options, apply_options,
}

-- What the client is asked for
pub data Operation : Type 0 where
  open_it close_it : Operation

-- The connection that there is after NewClient's answer
abbrev made : Outcome String ℕ → Option ℕ
made (ok c) = some c
made (err e) = none
made panic = none

abbrev then_go : Option (Option ℕ) → (Option ℕ → Option (Option ℕ)) → Option (Option ℕ)
then_go none f = none
then_go (some b) f = f b

-- New with WithDialOptions of each of these
unfoldable pub new_of : String → String → List (List ℕ) → Client
unfolding new_grpc_client
new_of name address options = new_grpc_client name address (map with_dial_options options)

apply_options-conn :
    (options : List (List ℕ)) (t : Client)
    → (apply_options (map with_dial_options options) t).conn ≡ t.conn
unfolding apply_options
apply_options-conn [] t = refl
apply_options-conn (d ∷ options) t = apply_options-conn options (with_dial_options d t)

new_of-conn :
    (name address : String) (options : List (List ℕ)) → (new_of name address options).conn ≡ none
unfolding new_grpc_client new_of
new_of-conn name address options = apply_options-conn options _

module _ (answer : List Call → Call → Outcome String ℕ) where
  -- The connection that there is after a call, where there was this one before and these calls were
  -- made; none is a call out of order: NewClient while there is a connection, or Close of what is
  -- not the connection.
  unfoldable pub after_call : List Call → Call → Option ℕ → Option (Option ℕ)
  after_call h (new_client address options) none =
      some (made (answer h (new_client address options)))
  after_call h (new_client address options) (some c) = none
  after_call h (close_connection d) none = none
  after_call h (close_connection d) (some c) = if nat_eq c d then some none else none

  unfoldable pub replay : List Call → List Call → Option ℕ → Option (Option ℕ)
  unfolding after_call
  replay h [] live = some live
  replay h (c ∷ calls) live = then_go (after_call h c live) (replay (h ++ c ∷ []) calls)

  then_go-some : (o : Option (Option ℕ)) → then_go o some ≡ o
  then_go-some none = refl
  then_go-some (some b) = refl

  then_go-then_go :
      (o : Option (Option ℕ)) (f g k : Option ℕ → Option (Option ℕ))
      → ((b : Option ℕ) → f b ≡ then_go (g b) k)
      → then_go o f ≡ then_go (then_go o g) k
  then_go-then_go none f g k e = refl
  then_go-then_go (some b) f g k e = e b

  replay-snoc :
      (calls h : List Call) (c : Call) (live : Option ℕ)
      → replay h (calls ++ c ∷ []) live ≡ then_go (replay h calls live) (after_call (h ++ calls) c)
  unfolding replay
  replay-snoc [] h c live =
      then_go-some (after_call h c live) ∙ ap (λ x. after_call x c live) (sym (append-nil h))
  replay-snoc (d ∷ calls) h c live = then_go-then_go (after_call h d live) _ _ _ (λ b.
      replay-snoc calls (h ++ d ∷ []) c b
      ∙ ap (λ x. then_go (replay (h ++ d ∷ []) calls b) (after_call x c))
          (append_assoc h (d ∷ []) calls))

  -- The calls made were in order, and leave the connection that the client has.
  unfoldable pub InStep : World → Type 0
  unfolding replay
  InStep w = replay [] w.1 none ≡ some w.0.conn

  replay-call :
      (w : World) (c : Call) → InStep w → replay [] (w.1 ++ c ∷ []) none ≡ after_call w.1 c w.0.conn
  unfolding InStep
  replay-call w c i = replay-snoc w.1 [] c none ∙ ap (λ x. then_go x (after_call w.1 c)) i

  opened-InStep :
      (o : Outcome String ℕ) (w : World) (r : Option ℕ)
      → w.0.conn ≡ none
      → replay [] w.1 none ≡ some (made o)
      → InStep (opened answer o w).1
  unfolding opened InStep
  opened-InStep (ok c) w r n e = e
  opened-InStep (err x) w r n e = e ∙ ap some (sym n)
  opened-InStep panic w r n e = e ∙ ap some (sym n)

  open_from-InStep :
      (conn : Option ℕ) (w : World)
      → w.0.conn ≡ conn
      → InStep w
      → InStep (open_from answer conn w).1
  unfolding open_from after_call
  open_from-InStep (some c) w e i = i
  open_from-InStep none w e i =
      let call = new_client w.0.address w.0.options in
      opened-InStep (answer w.1 call) (w.0, w.1 ++ call ∷ []) none e
        (replay-call w call i ∙ ap (after_call w.1 call) e)

  close_from-InStep :
      (conn : Option ℕ) (w : World) → w.0.conn ≡ conn → InStep w → InStep (close_from conn w)
  unfolding close_from after_call InStep
  close_from-InStep none w e i = i
  close_from-InStep (some c) w e i =
      replay-call w (close_connection c) i
      ∙ ap (after_call w.1 (close_connection c)) e
      ∙ ground (arith, nat_eq_iff c c)

  -- The operations, one after the other, whatever each comes to
  unfoldable pub run : List Operation → World → World
  unfolding open_client close
  run [] w = w
  run (open_it ∷ os) w = run os (open_client answer w).1
  run (close_it ∷ os) w = run os (close w)

  run-InStep : (os : List Operation) (w : World) → InStep w → InStep (run os w)
  unfolding run open_client close
  run-InStep [] w i = i
  run-InStep (open_it ∷ os) w i =
      run-InStep os (open_client answer w).1 (open_from-InStep w.0.conn w refl i)
  run-InStep (close_it ∷ os) w i = run-InStep os (close w) (close_from-InStep w.0.conn w refl i)

  -- However a client that New made is opened and closed, whatever the library answers, its calls are
  -- in order: a connection is made only where there is none, what is closed is the connection that
  -- was made last, and each is closed once at most; and the client has just the connection that is
  -- open.
  pub run-replay :
      (os : List Operation) (name address : String) (options : List (List ℕ))
      → replay [] (run os (new_of name address options, [])).1 none
        ≡ some (run os (new_of name address options, [])).0.conn
  unfolding InStep replay
  run-replay os name address options =
      run-InStep os (new_of name address options, [])
        (ap some (sym (new_of-conn name address options)))
