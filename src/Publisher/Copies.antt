-- ===== src/Publisher/Copies.antt =====
-- What subscribers get of a publication, gateway/src/PubServer.cpp.
use chater.Common.{ℕ, ◌≡◌, refl, ap, Bool, true, false, some, List, [], ◌∷◌, ◌++◌, append_assoc}
use chater.Packet.{u16_bytes}
use chater.Publisher.{PubServer, send_frames, attempts, publish, set_message_id}

-- A socket that takes every frame and keeps it with its flag for more.
abbrev keep : List ℕ → Bool → List (List ℕ × Bool) → Bool × List (List ℕ × Bool)
keep frame more sent = (true, sent ++ (frame, more) ∷ [])

abbrev message : List ℕ → ℕ → List ℕ → List (List ℕ × Bool)
message topic msg_type body = (topic, true) ∷ (u16_bytes msg_type, true) ∷ (body, false) ∷ []

-- `Publish` on such a socket succeeds and sends the same three frames three times, whatever id was set:
-- nothing in them tells a subscriber that they are copies.
publish-copies :
    (topic body : List ℕ) (msg_type id : ℕ) (sent : List (List ℕ × Bool))
    (p : PubServer (List (List ℕ × Bool)))
    → p.pub_sock ≡ some sent
    → let m = message topic msg_type body in
      let (ok, p') = publish keep topic msg_type body (set_message_id id p) in
      (ok ≡ true) × (p'.pub_sock ≡ some (sent ++ (m ++ (m ++ m))))
unfolding publish attempts send_frames set_message_id
publish-copies topic body msg_type id sent p k = rw k (refl, ap some (simp append_assoc refl))
