-- ===== src/Legacy/Web/Batches/Laws.antt =====
-- internal/legacy/web/posthandler.go: which batches the handler posts.
use mysql_datalayer.Legacy.Manager.{answered}
use mysql_datalayer.Prelude.{
  ◌⊎◌, ℕ, suc, ◌+◌, ◌≡◌, ◌≤◌, ◌<◌, refl, ap, ◌∙◌, true, false, inl, inr, some, List, [], ◌∷◌, ◌++◌,
  nat_eq, nat_eq-eq, Bool-cases, length, All, Text, append_assoc, arith, length-append,
}
use mysql_datalayer.Layer.Error.{failed, panicked, Outcome, done}
use mysql_datalayer.Legacy.Post.{Entity}
use mysql_datalayer.Legacy.Web.Batches.{
  Response, bad_request, server_panic, batch_size, Value, as_entity, Pending, no_content, posted,
  add_entity, emit_entity, go_on, parse_stream, respond_last, respond, post_handler,
}

-- The values are entities.
abbrev pub Reads : List Value → List Entity → Type 0
Reads [] [] = Unit
Reads [] (_ ∷ _) = ⊥
Reads (_ ∷ _) [] = ⊥
Reads (v ∷ vs) (e ∷ es) = (as_entity v ≡ some e) × Reads vs es

abbrev pub concat : List (List Entity) → List Entity
concat [] = []
concat (b ∷ bs) = b ++ concat bs

-- A batch that is posted: not empty, and no larger than 1000.
abbrev pub IsBatch : List Entity → Type 0
IsBatch b = (0 < length b) × (length b ≤ batch_size)

suc_zero : (n : ℕ) → nat_eq (suc n) 0 ≡ false
suc_zero n = ground arith

full-IsBatch :
    (es : List Entity) (e : Entity)
    → nat_eq (length es + 1) batch_size ≡ true
    → IsBatch (es ++ e ∷ [])
full-IsBatch es e h =
    ground (arith, length-append es (e ∷ []), nat_eq-eq (length es + 1) batch_size)

more_room :
    (es : List Entity) (e : Entity)
    → nat_eq (length es + 1) batch_size ≡ false
    → length es < batch_size
    → length (es ++ e ∷ []) < batch_size
more_room es e h room =
    ground (arith, length-append es (e ∷ []), nat_eq-eq (length es + 1) batch_size)

module _ {S : Type 0} (post : List Entity → S → S × Outcome Text) where
  -- A description of what is posted: the batches one after another, up to the first that fails.
  unfoldable pub go_on_with : (S → S × Outcome Text) → S × Outcome Text → S × Outcome Text
  go_on_with next (s, done) = next s
  go_on_with next (s, failed e) = (s, failed e)
  go_on_with next (s, panicked) = (s, panicked)

  unfoldable pub post_until : List (List Entity) → S → S × Outcome Text
  unfolding go_on_with
  post_until [] s = (s, done)
  post_until (b ∷ bs) s = go_on_with (post_until bs) (post b s)

module _ {S : Type 0} (finish : S → S) (post : List Entity → S → S × Outcome Text)
    (message : Text) where
  -- The response to a run of posts. A post that fails is answered with 400, with its own error or
  -- with the given message.
  abbrev pub IsAnswer : S × Outcome Text → S × Response → Type 0
  IsAnswer (s, done) answer = answer ≡ (finish s, no_content)
  IsAnswer (s, failed e) answer =
      (m : Text) × ((m ≡ message) ⊎ (m ≡ e)) × (answer ≡ (s, bad_request m))
  IsAnswer (s, panicked) answer = answer ≡ (s, server_panic)

  -- The state behind the first value, with entities that wait.
  abbrev waiting : List Entity → S → Pending S
  waiting es s = record { is_first = false; read = length es; entities = es; store = s }

  emit-waiting :
      (e : Entity) (es : List Entity) (s : S)
      → nat_eq (length es + 1) batch_size ≡ false
      → emit_entity finish post (some e) (waiting es s) ≡ (waiting (es ++ e ∷ []) s, done)
  unfolding emit_entity add_entity
  emit-waiting e es s h = rw (h, length-append es (e ∷ [])) refl

  emit-full :
      (e : Entity) (es : List Entity) (s : S)
      → nat_eq (length es + 1) batch_size ≡ true
      → emit_entity finish post (some e) (waiting es s)
        ≡ posted finish post (es ++ e ∷ []) (post (es ++ e ∷ []) s)
  unfolding emit_entity add_entity
  emit-full e es s h = rw h refl

  -- The last batch, with its answer.
  last-IsAnswer :
      (r : S × Outcome Text)
      → IsAnswer (go_on_with post (post_until post []) r) (respond_last finish post r)
  unfolding go_on_with post_until respond_last
  last-IsAnswer (s, done) = refl
  last-IsAnswer (s, failed e) = (e, inr refl, refl)
  last-IsAnswer (s, panicked) = refl

  -- A full batch, with what follows it.
  full-IsAnswer :
      (b : List Entity) (bs : List (List Entity)) (vs : List Value) (r : S × Outcome Text)
      → IsAnswer
          (post_until post bs r.0)
          (respond finish post message (parse_stream finish post vs (waiting [] r.0)))
      → IsAnswer (go_on_with post (post_until post bs) r) (
          respond finish post message
            (go_on finish post (parse_stream finish post vs) (posted finish post b r)))
  unfolding go_on_with go_on posted respond
  full-IsAnswer b bs vs (s, done) h = h
  full-IsAnswer b bs vs (s, failed e) h = (message, inl refl, refl)
  full-IsAnswer b bs vs (s, panicked) h = refl

  -- What the handler does with the values behind the first, when entities wait.
  abbrev AnswersBatches : List Value → List Entity → List Entity → S → Type 0
  AnswersBatches vs es pending s =
      (all : List (List Entity)) × (concat all ≡ pending ++ es)
      × All IsBatch all
      × IsAnswer (post_until post all s)
          (respond finish post message (parse_stream finish post vs (waiting pending s)))

  waiting-AnswersBatches :
      (pending : List Entity) (s : S) → length pending < batch_size → AnswersBatches [] [] pending s
  unfolding parse_stream respond post_until
  waiting-AnswersBatches [] s room = ([], refl, tt, refl)
  waiting-AnswersBatches (e ∷ rest) s room = (
    (e ∷ rest) ∷ [],
    refl,
    ((omega arith, omega arith), tt),
    rw (suc_zero (length rest)) (last-IsAnswer (post (e ∷ rest) s)),
  )

  stream-AnswersBatches :
      (vs : List Value) (es pending : List Entity) (s : S)
      → Reads vs es
      → length pending < batch_size
      → AnswersBatches vs es pending s
  unfolding parse_stream post_until go_on
  stream-AnswersBatches [] [] pending s reads room = waiting-AnswersBatches pending s room
  stream-AnswersBatches [] (e ∷ es) pending s reads room = absurd reads
  stream-AnswersBatches (v ∷ vs) [] pending s reads room = absurd reads
  stream-AnswersBatches (v ∷ vs) (e ∷ es) pending s (read, reads) room =
      let b = pending ++ e ∷ [] in
      elim (Bool-cases (nat_eq (length pending + 1) batch_size)) [
        | inl full ↦
            let (bs, same, sizes, answered) =
              stream-AnswersBatches vs es [] (post b s).0 reads (omega arith) in
            (
              b ∷ bs,
              ap (λ l. b ++ l) same ∙ append_assoc pending (e ∷ []) es,
              (full-IsBatch pending e full, sizes),
              rw (read, emit-full e pending s full) (full-IsAnswer b bs vs (post b s) answered),
            )
        | inr more ↦
            let (bs, same, sizes, answered) =
              stream-AnswersBatches vs es b s reads (more_room pending e more room) in
            (
              bs,
              same ∙ append_assoc pending (e ∷ []) es,
              sizes,
              rw (read, emit-waiting e pending s more) answered,
            )
      ]

  -- The values of a request behind the first are entities. Then these entities, in their order,
  -- are those of a list of batches of 1 to 1000, and the batches are posted one after another, up
  -- to the first that fails. When none fails, the store is finished and the answer is 200. When
  -- one fails, the answer is 400 with its error or with the message for a payload that could not
  -- be parsed, and the store is left as it is, with what the earlier batches have done; when one
  -- panics, the handler panics.
  pub post_handler_cases :
      (first : Value) (vs : List Value) (es : List Entity) (s : S)
      → Reads vs es
      → (all : List (List Entity)) × (concat all ≡ es)
        × All IsBatch all
        × IsAnswer (post_until post all s) (post_handler finish post message (first ∷ vs) s)
  unfolding post_handler parse_stream emit_entity go_on
  post_handler_cases first vs es s reads = stream-AnswersBatches vs es [] s reads (omega arith)

  accepted-answer :
      (r : S × Outcome Text) (answer : S × Response)
      → r.1 ≡ done
      → IsAnswer r answer
      → answer ≡ (finish r.0, no_content)
  accepted-answer (s, done) answer h answered = answered
  accepted-answer (s, failed e) answer h answered = cc
  accepted-answer (s, panicked) answer h answered = cc

  until-done :
      ((b : List Entity) (t : S) → (post b t).1 ≡ done)
      → (all : List (List Entity)) (s : S) → (post_until post all s).1 ≡ done
  unfolding post_until go_on_with
  until-done accepts [] s = refl
  until-done accepts (b ∷ bs) s =
      let posted_b : post b s ≡ ((post b s).0, done) = ap (λ o. ((post b s).0, o)) (accepts b s) in
      rw posted_b (until-done accepts bs (post b s).0)

  -- A request whose values behind the first are entities is answered with 200 when every post
  -- succeeds, and the entities are posted in their order, each once, in batches of at most 1000.
  pub post_handler-batches :
      (first : Value) (vs : List Value) (es : List Entity) (s : S)
      → ((b : List Entity) (t : S) → (post b t).1 ≡ done)
      → Reads vs es
      → (all : List (List Entity)) × (concat all ≡ es)
        × All IsBatch all
        × (post_handler finish post message (first ∷ vs) s
            ≡ (finish (post_until post all s).0, no_content))
  post_handler-batches first vs es s accepts reads =
      let (all, joined, sizes, answered) = post_handler_cases first vs es s reads in
      (
        all,
        joined,
        sizes,
        accepted-answer (post_until post all s) _ (until-done accepts all s) answered,
      )
