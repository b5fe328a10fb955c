-- ===== src/Gateway/Messages/Replies.antt =====
-- src/services/opencode-gateway.ts: which reply `extractCompletedAssistantReply` finds.
use opencode_master.Base.{
  first_of_both, Option-cases, inl, inr, inl, inr, Option-cases, if◌then◌else◌, String, Option,
  none, some, List, [], ◌∷◌, ◌++◌, ◌≡◌, refl, arith,
}
use mathlib.Core.List.{append-nil, append_assoc}
use opencode_master.Gateway.Messages.{
  Message, CompletedReply, new_id, ends_reply, reply_text, reasoning_texts, reasoning_of,
  completed_from, extract_completed_assistant_reply,
}

-- The reasoning of the new messages of the assistant.
abbrev thoughts_of : List String → List Message → List String
thoughts_of known [] = []
thoughts_of known (m ∷ messages) =
    let rest = thoughts_of known messages in
    elim (new_id known m) [ none ↦ rest | some _ ↦ reasoning_texts m ++ rest ]

module _ (known : List String) where
  -- The last message that completes a reply, with the reasoning of all new messages of the assistant up
  -- to it, after those before.
  abbrev pub last_reply : List Message → List Message → Option CompletedReply
  last_reply before [] = none
  last_reply before (m ∷ messages) = elim (last_reply (before ++ m ∷ []) messages) [
    | some reply ↦ some reply
    | none ↦ elim (new_id known m) [
      | none ↦ none
      | some id ↦
          if ends_reply m
          then some (record {
            id = id;
            text = reply_text m;
            reasoning = reasoning_of (thoughts_of known (before ++ m ∷ []));
          })
          else none
    ]
  ]

  thoughts_of-append :
      (before : List Message) (m : Message)
      → thoughts_of known (before ++ m ∷ []) ≡ (elim (new_id known m) as (λ _. List String) [
        | none ↦ thoughts_of known before
        | some _ ↦ thoughts_of known before ++ reasoning_texts m
      ])
  thoughts_of-append [] m = elim (Option-cases (new_id known m)) [
    | inl old ↦ ground (arith, old)
    | inr (id, new) ↦ ground (arith, new, append-nil (reasoning_texts m))
  ]
  thoughts_of-append (x ∷ before) m = elim (Option-cases (new_id known m)) [
    | inl old ↦ ground (arith, old, thoughts_of-append before m)
    | inr (id, new) ↦ ground (
      arith,
      new,
      thoughts_of-append before m,
      append_assoc (reasoning_texts x) (thoughts_of known before) (reasoning_texts m),
    )
  ]

  completed-last :
      (before messages : List Message) (reply : Option CompletedReply)
      → completed_from known (thoughts_of known before) reply messages
        ≡ first_of_both (last_reply before messages) reply
  unfolding completed_from
  completed-last before [] reply = refl
  completed-last before (m ∷ messages) reply = elim (Option-cases (new_id known m)) [
    | inl old ↦
        ground (
          arith,
          old,
          thoughts_of-append before m,
          completed-last (before ++ m ∷ []) messages reply,
        )
    | inr (id, new) ↦
        let thought = thoughts_of known before ++ reasoning_texts m in
        let found : CompletedReply = record {
          id = id;
          text = reply_text m;
          reasoning = reasoning_of thought;
        } in
        ground (
          arith,
          new,
          thoughts_of-append before m,
          completed-last (before ++ m ∷ []) messages (if ends_reply m then some found else reply),
        )
  ]

-- The reply that `extractCompletedAssistantReply` finds is the last message of the assistant that is
-- not known yet, that stopped, and that has a text that is not blank, with the reasoning of all new
-- messages of the assistant up to it, joined and trimmed; it finds none if there is no such message.
pub extract_completed_assistant_reply_last :
    (messages : List Message) (known : List String)
    → extract_completed_assistant_reply messages known ≡ last_reply known [] messages
unfolding extract_completed_assistant_reply
extract_completed_assistant_reply_last messages known =
    ground (arith, completed-last known [] messages none)
