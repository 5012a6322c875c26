-- ===== src/Firing/Published.antt =====
-- `ZstOutputPlug::fire`: what is sent to the transports, and what is left of the value.
use showtime_cpp.Common.{
  ℕ, suc, ◌+◌, ◌==◌, ◌≤◌, leb, ==_refl, ◌≡◌, refl, sym, ap, ◌∙◌, Bool, true, false, List, [], ◌∷◌,
  ◌++◌, Option, some, Result, ok, thrown, AllOk, append-nil, append_assoc, if◌then◌else◌, Bytes,
  length, arith, Bool-cases, inl, inr, ==_iff, subst,
}
use showtime_cpp.Uri
use showtime_cpp.Uri.{Uri, equal}
use showtime_cpp.CableAddress.{CableAddress}
use showtime_cpp.World.{Entity}
use showtime_cpp.Session
use showtime_cpp.Tree.Sound.{pure-AllOk}
use showtime_cpp.StageSession.{child_cables}
use showtime_cpp.Value
use showtime_cpp.Value.{Value, PlugValue, Conversions}
use showtime_cpp.Firing.{
  Graph, plug_at, set_value, input_of, receive, send_local, publish_each, publish, fire_to, fire,
}

module _ (I F : Type 0) (conv : Conversions I F) where
  -- The loop leaves the messages and the value that it copies alone, and counts no more cables than
  -- there are.
  record Kept (this n m : ℕ) (g : Graph I F) (sent : Graph I F × ℕ) : Type 0 where
    published : sent.0.published ≡ g.published
    publishers : sent.0.publishers ≡ g.publishers
    own : sent.0.value_of this ≡ g.value_of this
    few : sent.1 ≤ n + m

  -- An output that is its own input gets the value that it has.
  receive_own :
      (this q : ℕ) (g : Graph I F) → (receive I F conv this q g).value_of this ≡ g.value_of this
  unfolding receive set_value Value.copy
  receive_own this q g = elim (Bool-cases (this == q)) [
    | inl same ↦ rw same (
        ap (λ o. record (g.value_of o) { values = (g.value_of this).values })
          (sym ((==_iff this q).0 same)))
    | inr other ↦ rw other refl
  ]

  one_more :
      (b : Bool) (this q n m : ℕ) (g : Graph I F) (sent : Graph I F × ℕ)
      → Kept this (if b then n + 1 else n) m (if b then receive I F conv this q g else g) sent
      → Kept this n (suc m) g sent
  unfolding receive set_value
  one_more true this q n m g sent k = record {
    published = k.published;
    publishers = k.publishers;
    own = k.own ∙ receive_own this q g;
    few = omega (arith, k.few);
  }
  one_more false this q n m g sent k = record {
    published = k.published;
    publishers = k.publishers;
    own = k.own;
    few = omega (arith, k.few);
  }

  one_more-AllOk :
      (b : Bool) (this q n m : ℕ) (g : Graph I F) (r : Result (Graph I F × ℕ))
      → AllOk (Kept this (if b then n + 1 else n) m (if b then receive I F conv this q g else g)) r
      → AllOk (Kept this n (suc m) g) r
  one_more-AllOk b this q n m g (thrown why) k = tt
  one_more-AllOk b this q n m g (ok sent) k = one_more b this q n m g sent k

  send_local-Kept :
      (this : ℕ) (path : Uri) (bundle : List CableAddress) (n : ℕ) (g : Graph I F)
      → AllOk (Kept this n (length bundle) g) (send_local I F conv this path bundle n g)
  unfolding send_local
  send_local-Kept this path [] n g = record {
    published = refl;
    publishers = refl;
    own = refl;
    few = omega arith;
  }
  send_local-Kept this path (a ∷ as') n g =
      let P = Kept this n (suc (length as')) g in
      pure-AllOk P (input_of I F conv (Session.find_cable a g.session)) _ (λ q.
        pure-AllOk P (plug_at I F conv q g) _ (λ input.
          pure-AllOk P (Uri.first input.uri) _ (λ theirs. pure-AllOk P (Uri.first path) _ (λ mine.
            one_more-AllOk (equal theirs mine) this q n (length as') g _
              (send_local-Kept this path as' _ _)))))

  -- The message that each transport gets.
  unfoldable pub messages :
      Bytes → Option (PlugValue I F) → List ℕ → List (ℕ × Bytes × Option (PlugValue I F))
  messages path table [] = []
  messages path table (t ∷ ts) = (t, path, table) ∷ messages path table ts

  publish_each_lem :
      (this : ℕ) (path : Bytes) (table : Option (PlugValue I F)) (ts : List ℕ) (g : Graph I F)
      → Value.serialize I F conv (g.value_of this) ≡ ok table
      → publish_each I F conv this path ts g
        ≡ ok (record g { published = g.published ++ messages path table ts })
  unfolding publish_each messages
  publish_each_lem this path table [] g known =
      ap (λ l. ok (record g { published = l })) (sym (append-nil g.published))
  publish_each_lem this path table (t ∷ ts) g known = rw known (
      publish_each_lem this path table ts
        (record g { published = g.published ++ (t, path, table) ∷ [] }) known
      ∙ ap (λ l. ok (record g { published = l }))
          (append_assoc g.published ((t, path, table) ∷ []) (messages path table ts)))

  le→leb : (a b : ℕ) → a ≤ b → leb a b ≡ true
  le→leb a b h = ground arith

  publish_lem :
      (p : ℕ) (path : Uri) (bundle : List CableAddress) (table : Option (PlugValue I F))
      (g : Graph I F) (sent : Graph I F × ℕ)
      → Kept p 0 (length bundle) g sent
      → Value.serialize I F conv (g.value_of p) ≡ ok table
      → publish I F conv p path bundle sent
        ≡ ok (record (sent.0) {
          published = g.published ++ messages (Uri.path path) table g.publishers;
        })
  unfolding publish
  publish_lem p path bundle table g (s, n) k known =
      rw (le→leb n (length bundle) (omega (arith, k.few))) (
        publish_each_lem p (Uri.path path) table s.publishers s
          (ap (Value.serialize I F conv) k.own ∙ known)
        ∙ rw (k.published, k.publishers) refl)

  plug_lem :
      (p : ℕ) (e : Entity) (g : Graph I F)
      → g.session.world.heap p ≡ some e
      → plug_at I F conv p g ≡ ok e
  unfolding plug_at
  plug_lem p e g live = rw (live, plug_at) refl

  no_values :
      (p : ℕ) (v : Value I F) (g : Graph I F)
      → ((set_value I F conv p (Value.clear I F conv v) g).value_of p).values ≡ []
  unfolding set_value Value.clear
  no_values p v g = rw (==_refl p) refl

  -- An output that may fire, whose loop over its cables goes through and whose value can be serialised,
  -- sends its value to every transport, however many of its cables are local; afterwards it has no
  -- values, and the inputs that were told are those of the loop.
  pub fire_lem :
      (p : ℕ) (e : Entity) (g : Graph I F) (sent : Graph I F × ℕ) (table : Option (PlugValue I F))
      → g.session.world.heap p ≡ some e
      → e.can_fire ≡ true
      → send_local I F conv p e.uri (child_cables e.cables g.session []) 0 g ≡ ok sent
      → Value.serialize I F conv (g.value_of p) ≡ ok table
      → (h : Graph I F) × (fire I F conv p g ≡ ok h)
        × (h.published ≡ g.published ++ messages (Uri.path e.uri) table g.publishers)
        × ((h.value_of p).values ≡ [])
        × (h.received ≡ sent.0.received)
  unfolding fire fire_to set_value
  fire_lem p e g sent table live can looped known =
      let bundle = child_cables e.cables g.session [] in
      let kept =
        subst (AllOk (Kept p 0 (length bundle) g)) looped (send_local-Kept p e.uri bundle 0 g) in
      let done = record (sent.0) {
        published = g.published ++ messages (Uri.path e.uri) table g.publishers;
      } in
      (
        set_value I F conv p (Value.clear I F conv (done.value_of p)) done,
        rw (plug_lem p e g live, can, looped, publish_lem p e.uri bundle table g sent kept known)
            refl,
        refl,
        no_values p (done.value_of p) done,
        refl,
      )
