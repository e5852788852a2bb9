-- ===== src/Prompt/Native/Balance.antt =====
-- Every call of the history is in the messages, and is answered in the message behind it.
use Prim.Native.String.{String}
use moss_code.Base.{
  ℕ, zero, suc, ◌≤◌, ◌<◌, ◌≡◌, refl, sym, ap, ◌∙◌, is_none, not, Bool, true, false, ◌&&◌, Option,
  none, some, List, [], ◌∷◌, ◌++◌, map, arith, if◌then◌else◌, if-elim, if-cases, same, truthy, all,
  filter, length, get_elem?,
}
use moss_code.Prompt.{Entry, Block, Message, history_entries}
use moss_code.Prompt.Native.{
  Walk, is_call, is_in, read_result, take_result, result_blocks, call_blocks, native_tool_turn,
  leading_calls, entry_messages, step, messages_from, native_history_messages, result_position,
  append_to,
}

abbrev pub has_kind : String → Block → Bool
has_kind kind b = same b.kind kind

abbrev pub ids : List Block → List String
ids blocks = map (λ b. b.call_id) blocks

-- A message of calls, and the message that answers them: the same calls, in the same order.
pub record Answered (calls results : Message) : Type 0 where
  pub by_assistant : calls.role ≡ "assistant"
  pub are_calls : all (has_kind "tool_call") calls.blocks ≡ true
  pub are_results : all (has_kind "tool_result") results.blocks ≡ true
  pub same_ids : ids calls.blocks ≡ ids results.blocks

-- Messages in which every call is answered by the next message, and nothing else is called or answered.
pub data Balanced : List Message → Type 0 where
  done : Balanced []
  plain :
      {m : Message} {ms : List Message}
      → all (has_kind "history") m.blocks ≡ true
      → Balanced ms
      → Balanced (m ∷ ms)
  turn :
      {calls results : Message} {ms : List Message}
      → Answered calls results
      → Balanced ms
      → Balanced (calls ∷ results ∷ ms)

-- The calls of each message that has some, in order.
abbrev add_turn : List String → List (List String) → List (List String)
add_turn [] later = later
add_turn (id ∷ calls) later = (id ∷ calls) ∷ later

abbrev pub turns : List Message → List (List String)
turns [] = []
turns (m ∷ ms) = add_turn (ids (filter (has_kind "tool_call") m.blocks)) (turns ms)

add_turn-append :
    (calls : List String) (later more : List (List String))
    → add_turn calls (later ++ more) ≡ add_turn calls later ++ more
add_turn-append [] later more = refl
add_turn-append (id ∷ calls) later more = refl

Balanced-append : {ms ns : List Message} → Balanced ms → Balanced ns → Balanced (ms ++ ns)
Balanced-append done h = h
Balanced-append (plain p b) h = plain p (Balanced-append b h)
Balanced-append (turn a b) h = turn a (Balanced-append b h)

turns-append : (ms ns : List Message) → turns (ms ++ ns) ≡ turns ms ++ turns ns
turns-append [] ns = refl
turns-append (m ∷ ms) ns =
    ap (add_turn (ids (filter (has_kind "tool_call") m.blocks))) (turns-append ms ns)
    ∙ add_turn-append (ids (filter (has_kind "tool_call") m.blocks)) (turns ms) (turns ns)

-- A call in front of the runs of those behind it, which goes into the first run if a call follows it at once.
abbrev extend : String → Bool → List (List String) → List (List String)
extend id true (run ∷ runs) = (id ∷ run) ∷ runs
extend id true [] = (id ∷ []) ∷ []
extend id false runs = (id ∷ []) ∷ runs

-- The answer to the call with an id.
pub record Answers (id : String) (b : Block) : Type 0 where
  pub is_result : has_kind "tool_result" b ≡ true
  pub is_no_call : has_kind "tool_call" b ≡ false
  pub same_id : b.call_id ≡ id

-- The answers to a group of calls.
pub record AnswerAll (wanted : List String) (bs : List Block) : Type 0 where
  pub are_results : all (has_kind "tool_result") bs ≡ true
  pub no_calls : filter (has_kind "tool_call") bs ≡ []
  pub same_ids : ids bs ≡ wanted

AnswerAll-cons :
    (id : String) (b : Block) (wanted : List String) (bs : List Block)
    → Answers id b
    → AnswerAll wanted bs
    → AnswerAll (id ∷ wanted) (b ∷ bs)
AnswerAll-cons id b wanted bs h k = record {
  are_results = rw h.is_result k.are_results;
  no_calls = rw h.is_no_call k.no_calls;
  same_ids = rw (h.same_id, k.same_ids);
}

module _ (Args : Type 0) (dumps compact_dumps : Args → String)
    (clip : String → ℕ → String → String) where
  abbrev begins : List (Entry Args) → Bool
  begins [] = false
  begins (item ∷ items) = is_call Args dumps compact_dumps clip item

  -- The runs of calls that follow each other at once.
  abbrev pub call_runs : List (Entry Args) → List (List String)
  call_runs [] = []
  call_runs (item ∷ items) =
      let rest = call_runs items in
      if is_call Args dumps compact_dumps clip item
      then extend item.call_id (begins items) rest
      else rest

  abbrev group_ids : List (Entry Args) → List String
  group_ids [] = []
  group_ids (item ∷ group) = item.call_id ∷ group_ids group

  call_blocks-kinds :
      (group : List (Entry Args))
      → all (has_kind "tool_call") (call_blocks Args dumps compact_dumps clip group) ≡ true
  unfolding call_blocks
  call_blocks-kinds [] = refl
  call_blocks-kinds (item ∷ group) = call_blocks-kinds group

  call_blocks-ids :
      (group : List (Entry Args))
      → ids (call_blocks Args dumps compact_dumps clip group) ≡ group_ids group
  unfolding call_blocks
  call_blocks-ids [] = refl
  call_blocks-ids (item ∷ group) =
      ap (λ (l : List String). item.call_id ∷ l) (call_blocks-ids group)

  call_blocks-called :
      (group : List (Entry Args))
      → ids (filter (has_kind "tool_call") (call_blocks Args dumps compact_dumps clip group))
        ≡ group_ids group
  unfolding call_blocks
  call_blocks-called [] = refl
  call_blocks-called (item ∷ group) =
      ap (λ (l : List String). item.call_id ∷ l) (call_blocks-called group)

  read_result-Answers :
      (item : Entry Args) (position : ℕ) (o : Option (Entry Args)) (consumed : List ℕ)
      → Answers item.call_id (read_result Args dumps compact_dumps clip item position o consumed).0
  read_result-Answers item position none consumed = record {
    is_result = refl;
    is_no_call = refl;
    same_id = refl;
  }
  read_result-Answers item position (some result) consumed = record {
    is_result = refl;
    is_no_call = refl;
    same_id = refl;
  }

  take_result-Answers :
      (entries : List (Entry Args)) (item : Entry Args) (o : Option ℕ) (consumed : List ℕ)
      → Answers item.call_id (take_result Args dumps compact_dumps clip entries item o consumed).0
  unfolding take_result
  take_result-Answers entries item none consumed = record {
    is_result = refl;
    is_no_call = refl;
    same_id = refl;
  }
  take_result-Answers entries item (some position) consumed =
      if-elim (λ (r : Block × List ℕ). Answers item.call_id r.0)
        (is_in Args dumps compact_dumps clip position consumed)
        (record { is_result = refl; is_no_call = refl; same_id = refl })
        (read_result-Answers item position (get_elem? entries position) consumed)

  result_blocks-AnswerAll :
      (entries group : List (Entry Args)) (consumed : List ℕ)
      → AnswerAll
          (group_ids group)
          (result_blocks Args dumps compact_dumps clip entries group consumed).0
  unfolding result_blocks
  result_blocks-AnswerAll entries [] consumed = record {
    are_results = refl;
    no_calls = refl;
    same_ids = refl;
  }
  result_blocks-AnswerAll entries (item ∷ group) consumed =
      AnswerAll-cons item.call_id _ (group_ids group) _
        (take_result-Answers entries item
          (result_position Args dumps compact_dumps clip item.call_id 0 entries) consumed)
        (result_blocks-AnswerAll entries group _)

  -- What the messages of one round are: balanced, and with these calls.
  abbrev Carry : List (List String) → List Message → Type 0
  Carry wanted ms = Balanced ms × (turns ms ≡ wanted)

  native_tool_turn-Carry :
      (entries group : List (Entry Args)) (consumed : List ℕ)
      → Carry
          (add_turn (group_ids group) [])
          (native_tool_turn Args dumps compact_dumps clip entries group consumed).0
  unfolding native_tool_turn
  native_tool_turn-Carry entries group consumed =
      let a = result_blocks-AnswerAll entries group consumed in
      (
        turn
            (record {
              by_assistant = refl;
              are_calls = call_blocks-kinds group;
              are_results = a.are_results;
              same_ids = call_blocks-ids group ∙ sym a.same_ids;
            })
            done,
        ap
              (λ (l : List Block).
                add_turn
                  (ids (
                    filter (has_kind "tool_call")
                      (call_blocks Args dumps compact_dumps clip group)))
                  (add_turn (ids l) []))
              a.no_calls
            ∙ ap (λ (l : List String). add_turn l []) (call_blocks-called group),
      )

  entry_messages-Carry :
      (index : ℕ) (item : Entry Args) (consumed : List ℕ)
      → Carry [] (entry_messages Args dumps compact_dumps clip index item consumed)
  unfolding entry_messages
  entry_messages-Carry index item consumed =
      if-elim (λ (ms : List Message). Carry [] ms) (same item.role "tool" && truthy item.call_id)
        (if-elim (λ (ms : List Message). Carry [] ms)
          (is_in Args dumps compact_dumps clip index consumed) (done, refl) (plain refl done, refl))
        (plain refl done, refl)

  extend-add_turn :
      (id : String) (group : List (Entry Args)) (runs : List (List String))
      → extend id (not (is_none group)) (add_turn (group_ids group) runs)
        ≡ (id ∷ group_ids group) ∷ runs
  extend-add_turn id [] runs = refl
  extend-add_turn id (item ∷ group) runs = refl

  leading_calls-ids :
      (xs : List (Entry Args))
      → let (group, after) = leading_calls Args dumps compact_dumps clip xs in
        (call_runs xs ≡ add_turn (group_ids group) (call_runs after))
        × (length after ≤ length xs)
        × (begins xs ≡ not (is_none group))
  unfolding leading_calls
  leading_calls-ids [] = (refl, omega arith, refl)
  leading_calls-ids (item ∷ rest) =
      let (e, n, b) = leading_calls-ids rest in
      let (group, after) = leading_calls Args dumps compact_dumps clip rest in
      if-cases
        (λ (r : List (Entry Args) × List (Entry Args)).
          (call_runs (item ∷ rest) ≡ add_turn (group_ids r.0) (call_runs r.1))
          × (length r.1 ≤ suc (length rest))
          × (begins (item ∷ rest) ≡ not (is_none r.0)))
        (is_call Args dumps compact_dumps clip item)
        (λ on. (
          rw (on, b, e) (extend-add_turn item.call_id group (call_runs after)),
          omega (arith, n),
          on,
        ))
        (λ off. (refl, omega arith, off))

  leading_calls-shorter :
      (item : Entry Args) (rest : List (Entry Args))
      → is_call Args dumps compact_dumps clip item ≡ true
      → length (leading_calls Args dumps compact_dumps clip (item ∷ rest)).1 ≤ length rest
  unfolding leading_calls
  leading_calls-shorter item rest on = let (e, n, b) = leading_calls-ids rest in rw on n

  -- What one round does: its messages are balanced, its calls are those that it takes off the entries.
  record Round (item : Entry Args) (w : Walk Args) (r : List Message × Walk Args) : Type 0 where
    pub is_balanced : Balanced r.0
    pub calls : turns r.0 ++ call_runs r.1.rest ≡ call_runs (item ∷ w.rest)
    pub shorter : length r.1.rest ≤ length w.rest

  step-Round :
      (entries : List (Entry Args)) (item : Entry Args) (w : Walk Args)
      → Round item w (step Args dumps compact_dumps clip entries item w)
  unfolding step
  step-Round entries item w =
      let (group, after) = leading_calls Args dumps compact_dumps clip (item ∷ w.rest) in
      if-cases (λ (r : List Message × Walk Args). Round item w r)
        (is_call Args dumps compact_dumps clip item)
        (λ on.
          let (balanced, names) = native_tool_turn-Carry entries group w.consumed in
          record {
            is_balanced = balanced;
            calls =
                ap (λ (l : List (List String)). l ++ call_runs after) names
                ∙ sym (add_turn-append (group_ids group) [] (call_runs after))
                ∙ sym (leading_calls-ids (item ∷ w.rest)).0;
            shorter = leading_calls-shorter item w.rest on;
          })
        (λ off.
          let (balanced, names) = entry_messages-Carry w.index item w.consumed in
          record {
            is_balanced = balanced;
            calls =
                ap (λ (l : List (List String)). l ++ call_runs w.rest) names ∙ sym (rw off refl);
            shorter = omega arith;
          })

  -- Balanced messages with these calls.
  abbrev pub Answering : List (List String) → Option (List Message) → Type 0
  Answering wanted r = (ms : List Message) × (r ≡ some ms) × Balanced ms × (turns ms ≡ wanted)

  Answering-append :
      (wanted later : List (List String)) (ms : List Message) (r : Option (List Message))
      → Balanced ms
      → turns ms ++ later ≡ wanted
      → Answering later r
      → Answering wanted (append_to Args dumps compact_dumps clip ms r)
  Answering-append wanted later ms r b e (ns, f, c, g) = (
    ms ++ ns,
    ap (λ (o : Option (List Message)). append_to Args dumps compact_dumps clip ms o) f,
    Balanced-append b c,
    turns-append ms ns ∙ ap (λ (l : List (List String)). turns ms ++ l) g ∙ e,
  )

  messages_from-Answering :
      (entries : List (Entry Args)) (fuel index : ℕ) (rest : List (Entry Args)) (consumed : List ℕ)
      → length rest < fuel
      → Answering
          (call_runs rest)
          (messages_from Args dumps compact_dumps clip entries fuel index rest consumed)
  unfolding messages_from
  messages_from-Answering entries zero index rest consumed h = ground arith
  messages_from-Answering entries (suc fuel) index [] consumed h = ([], refl, done, refl)
  messages_from-Answering entries (suc fuel) index (item ∷ rest) consumed h =
      let w : Walk Args = record { index = index; rest = rest; consumed = consumed } in
      let r = step-Round entries item w in
      let (messages, later) = step Args dumps compact_dumps clip entries item w in
      Answering-append (call_runs (item ∷ rest)) (call_runs later.rest) messages _ r.is_balanced
        r.calls
        (messages_from-Answering entries fuel later.index later.rest later.consumed
          (omega (arith, h, r.shorter)))

  -- Whatever the history holds, also calls without a result, results without a call and calls that were
  -- recorded before all of their results, the loop ends and its messages are balanced: each message with
  -- calls is answered by the next one, call for call, and no other message calls or answers. The messages
  -- with calls are, in order, the runs of calls that follow each other at once in the history without its
  -- pending entries: such a run is one message, with each of its calls once and in order.
  pub native_history_messages-Answering :
      (history : List (Entry Args))
      → Answering
          (call_runs (history_entries Args dumps history))
          (native_history_messages Args dumps compact_dumps clip history)
  unfolding native_history_messages
  native_history_messages-Answering history =
      let entries = history_entries Args dumps history in
      messages_from-Answering entries (suc (length entries)) 0 entries [] (omega arith)
