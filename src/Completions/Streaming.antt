-- ===== src/Completions/Streaming.antt =====
-- What `consume_stream` of generation/openai_stream.py has sent on when it returns.
use mathlib.Core.List.{append_assoc, append-nil}
use mathlib.Core.Bool.{false≢true}
use ai_powered_codebase_engi.Prelude.{
  ℕ, suc, ◌+◌, ◌<◌, ◌≤◌, not, All, map, length, same_text, ◌≡◌, refl, sym, ap, ◌∙◌, subst, Bool,
  true, false, ◌||◌, Option, none, some, List, [], ◌∷◌, ◌++◌, arith, ltb, get_elem?, same_text_eq,
  Bool-cases, inl, inr,
}
use ai_powered_codebase_engi.Runs.Model.{Text}
use ai_powered_codebase_engi.Calls.Model.{Raised, Reply, fails, gives, invalid}
use ai_powered_codebase_engi.Answers.Contracts.{GenerationResult}
use ai_powered_codebase_engi.Completions.Model.{
  OutputItem, TextDelta, ProviderEvent, failure, text_delta, completed, other, malformed, Client,
  Reading, beginning, Consumed, ends_with, incomplete, is_stale, is_foreign, same_stream,
  content_at, is_text, is_streamed, checked, compare_text, complete, report, report_failure, send,
  take_delta, on_event, consume, consume_stream,
}

-- `"".join(deltas)`
unfoldable pub joined : List Text → Text
joined [] = []
joined (d ∷ ds) = d ++ joined ds

-- `e` names the place in the output that `d` names.
abbrev pub SamePlace : TextDelta → TextDelta → Type 0
SamePlace d e =
    (d.item_id ≡ e.item_id)
    × (d.output_index ≡ e.output_index)
    × (d.content_index ≡ e.content_index)

abbrev InPlace : TextDelta → Option TextDelta → Type 0
InPlace d none = Unit
InPlace d (some e) = SamePlace d e

abbrev After : Option ℕ → ℕ → Type 0
After none number = Unit
After (some last) number = last < number

abbrev pub last_of : Option TextDelta → List TextDelta → Option TextDelta
last_of first [] = first
last_of first (d ∷ ds) = last_of (some d) ds

module _ {R : Type 0} where
  -- Deltas and other events with rising numbers, the last of them below `number`.
  abbrev pub IsInOrder : Option ℕ → List (ProviderEvent R) → ℕ → Type 0
  IsInOrder last [] number = After last number
  IsInOrder last (text_delta n d ∷ es) number = After last n × IsInOrder (some n) es number
  IsInOrder last (other n ∷ es) number = After last n × IsInOrder (some n) es number
  IsInOrder last (completed n r ∷ es) number = ⊥
  IsInOrder last (failure r ∷ es) number = ⊥
  IsInOrder last (malformed ∷ es) number = ⊥

  abbrev pub deltas_of : List (ProviderEvent R) → List TextDelta
  deltas_of [] = []
  deltas_of (text_delta n d ∷ es) = d ∷ deltas_of es
  deltas_of (e ∷ es) = deltas_of es

module _ {R : Type 0} (client : Client R) where
  -- What the events are from a reading on: a completion, and before it deltas, all of one place, and
  -- other events, in order. The deltas are those that were sent on, and their text after the one
  -- that was read before is that of the completed response at their place.
  pub record IsFaithfulFrom (s : Reading) (events : List (ProviderEvent R))
      (result : GenerationResult) (sent : List Text) : Type 0 where
    pub before : List (ProviderEvent R)
    pub after : List (ProviderEvent R)
    pub number : ℕ
    pub response : R
    pub split : events ≡ before ++ (completed number response ∷ after)
    pub few : s.count + length before < 12000
    pub in_order : IsInOrder s.sequence before number
    pub sent_on : map (λ (d : TextDelta). d.delta) (deltas_of before) ≡ sent
    pub place : TextDelta
    pub last : last_of s.identity (deltas_of before) ≡ some place
    pub one_place : All (SamePlace place) (deltas_of before)
    pub named : InPlace place s.identity
    pub output : List OutputItem
    pub validated : client.validate_response response ≡ gives result
    pub parsed : client.parse response ≡ gives output
    pub same :
        content_at (get_elem? output place.output_index) place ≡ some (s.accumulated ++ joined sent)
    pub small : client.bytes (s.accumulated ++ joined sent) ≤ 65536

  abbrev pub IsFaithful : List (ProviderEvent R) → GenerationResult → List Text → Type 0
  IsFaithful = IsFaithfulFrom beginning

  no_end :
      (r : Raised) {sent : List Text} {result : GenerationResult}
      → ¬ (ends_with r ≡ (sent, gives result))
  no_end r e = let clash = ap (λ (c : Consumed). c.1) e in cc

  is_text-eq : (o : Option Text) (t : Text) → is_text o t ≡ true → o ≡ some t
  unfolding is_text
  is_text-eq none t e = cc
  is_text-eq (some s) t e = ap some (same_text_eq s t e)

  checked-eq :
      (b : Bool) (r : GenerationResult) {result : GenerationResult}
      → checked b r ≡ gives result
      → (b ≡ true) × (r ≡ result)
  unfolding checked
  checked-eq true r e = (refl, cc)
  checked-eq false r e = cc

  -- A completed response of the text that was read, and the place where it stands.
  record IsCompletion (s : Reading) (response : R) (result : GenerationResult) : Type 0 where
    place : TextDelta
    output : List OutputItem
    known : s.identity ≡ some place
    validated : client.validate_response response ≡ gives result
    parsed : client.parse response ≡ gives output
    same : content_at (get_elem? output place.output_index) place ≡ some s.accumulated

  complete-IsCompletion :
      (s : Reading) (response : R) {result : GenerationResult}
      → complete client s response (client.validate_response response) ≡ gives result
      → result.refused ≡ false
      → IsCompletion s response result
  complete-IsCompletion s response {result} e open_answer =
      validate (client.validate_response response) refl e
    where
      streamed :
          (place : Option TextDelta) (output : List OutputItem)
          → is_streamed place output s.accumulated ≡ true
          → (d : TextDelta) × (place ≡ some d)
            × (content_at (get_elem? output d.output_index) d ≡ some s.accumulated)
      streamed none output q = unfold is_streamed in cc
      streamed (some d) output q = (d, refl, is_text-eq _ s.accumulated (unfold is_streamed in q))

      parse :
          (r : GenerationResult) (o : Reply (List OutputItem))
          → client.validate_response response ≡ gives r
          → client.parse response ≡ o
          → compare_text client s r o ≡ gives result
          → IsCompletion s response result
      parse r (fails f) v p q = unfold compare_text in cc
      parse r (gives output) v p q =
          let made : checked (r.refused || is_streamed s.identity output s.accumulated) r
              ≡ gives result =
            unfold compare_text in q in
          let (passed, same_result) =
            checked-eq (r.refused || is_streamed s.identity output s.accumulated) r made in
          let kept : r.refused ≡ false =
            ap (λ (x : GenerationResult). x.refused) same_result ∙ open_answer in
          let (d, known, at_place) =
            streamed s.identity output
              (sym (ap (λ b. b || is_streamed s.identity output s.accumulated) kept) ∙ passed) in
          record {
            output = output;
            place = d;
            validated = v ∙ ap gives same_result;
            parsed = p;
            same = at_place;
            known = known;
          }

      validate :
          (o : Reply GenerationResult)
          → client.validate_response response ≡ o
          → complete client s response o ≡ gives result
          → IsCompletion s response result
      validate (fails f) v q = unfold complete in cc
      validate (gives r) v q = parse r (client.parse response) v refl (unfold complete in q)

  -- What an event does, given what the later ones do.
  Later : List (ProviderEvent R) → GenerationResult → Type 0
  Later es result =
      (s : Reading) (sent : List Text)
      → client.bytes s.accumulated ≤ 65536
      → consume client s es ≡ (sent, gives result)
      → IsFaithfulFrom s es result sent

  fresh_number : (last : Option ℕ) (number : ℕ) → is_stale last number ≡ false → After last number
  unfolding is_stale
  fresh_number none number e = tt
  fresh_number (some last) number e = ground (arith, e)

  same_place : (d e : TextDelta) → same_stream d e ≡ true → SamePlace d e
  unfolding same_stream
  same_place d e h = elim (Bool-cases (same_text d.item_id e.item_id)) [
    | inr f ↦ absurd (false≢true (rw f at h))
    | inl f ↦ (same_text_eq _ _ f, ground (arith, h, f), ground (arith, h, f))
  ]

  in_place :
      (first : Option TextDelta) (d place : TextDelta)
      → is_foreign first d ≡ false
      → SamePlace place d
      → InPlace place first
  unfolding is_foreign
  in_place none d place e h = tt
  in_place (some first) d place e h =
      let same : same_stream d first ≡ true = not_false _ e in
      let k = same_place d first same in (h.0 ∙ k.0, h.1 ∙ k.1, h.2 ∙ k.2)
    where
      not_false : (b : Bool) → not b ≡ false → b ≡ true
      not_false true q = refl
      not_false false q = cc

  -- The completion itself.
  ended :
      (s : Reading) (number : ℕ) (response : R) (es : List (ProviderEvent R)) (sent : List Text)
      {result : GenerationResult}
      → s.count < 12000
      → After s.sequence number
      → client.bytes s.accumulated ≤ 65536
      → [] ≡ sent
      → IsCompletion s response result
      → IsFaithfulFrom s (completed number response ∷ es) result sent
  unfolding joined
  ended s number response es sent {result} few new small none_sent k =
      subst (IsFaithfulFrom s (completed number response ∷ es) result) none_sent (record {
        before = [];
        after = es;
        number = number;
        response = response;
        split = refl;
        few = omega (arith, few);
        in_order = new;
        sent_on = refl;
        place = k.place;
        last = k.known;
        one_place = tt;
        named = subst (InPlace k.place) (sym k.known) (refl, refl, refl);
        output = k.output;
        validated = k.validated;
        parsed = k.parsed;
        same = k.same ∙ ap some (sym (append-nil s.accumulated));
        small = subst (λ t. client.bytes t ≤ 65536) (sym (append-nil s.accumulated)) small;
      })

  -- An event that is passed over.
  skipped :
      (s : Reading) (number : ℕ) (es : List (ProviderEvent R)) (sent : List Text)
      {result : GenerationResult}
      → After s.sequence number
      → IsFaithfulFrom (record s { count = suc s.count; sequence = some number }) es result sent
      → IsFaithfulFrom s (other number ∷ es) result sent
  skipped s number es sent new k = record {
    before = other number ∷ k.before;
    after = k.after;
    number = k.number;
    response = k.response;
    split = ap (λ l. other number ∷ l) k.split;
    few = omega (arith, k.few);
    in_order = (new, k.in_order);
    sent_on = k.sent_on;
    place = k.place;
    last = k.last;
    one_place = k.one_place;
    named = k.named;
    output = k.output;
    validated = k.validated;
    parsed = k.parsed;
    same = k.same;
    small = k.small;
  }

  -- A delta that is sent on.
  passed_on :
      (s : Reading) (number : ℕ) (d : TextDelta) (es : List (ProviderEvent R)) (sent : List Text)
      {result : GenerationResult}
      → After s.sequence number
      → is_foreign s.identity d ≡ false
      → IsFaithfulFrom
          (record s {
            count = suc s.count;
            sequence = some number;
            identity = some d;
            accumulated = s.accumulated ++ d.delta;
          })
          es
          result
          sent
      → IsFaithfulFrom s (text_delta number d ∷ es) result (d.delta ∷ sent)
  unfolding joined
  passed_on s number d es sent new own k = record {
    before = text_delta number d ∷ k.before;
    after = k.after;
    number = k.number;
    response = k.response;
    split = ap (λ l. text_delta number d ∷ l) k.split;
    few = omega (arith, k.few);
    in_order = (new, k.in_order);
    sent_on = ap (λ l. d.delta ∷ l) k.sent_on;
    place = k.place;
    last = k.last;
    one_place = (k.named, k.one_place);
    named = in_place s.identity d k.place own k.named;
    output = k.output;
    validated = k.validated;
    parsed = k.parsed;
    same = k.same ∙ ap some (append_assoc s.accumulated d.delta (joined sent));
    small =
        subst (λ t. client.bytes t ≤ 65536) (append_assoc s.accumulated d.delta (joined sent))
          k.small;
  }

  report-no_end :
      (o : Reply GenerationResult) {sent : List Text} {result : GenerationResult}
      → ¬ (report o ≡ (sent, gives result))
  unfolding report
  report-no_end (fails r) e = no_end r e
  report-no_end (gives x) e = no_end incomplete e

  after_send :
      (s : Reading) (number : ℕ) (d : TextDelta) (es : List (ProviderEvent R))
      (result : GenerationResult) (t : Reading) (o : Reply (Unit {0})) (sent : List Text)
      → ((rest : List Text)
          → consume client t es ≡ (rest, gives result)
          → IsFaithfulFrom s (text_delta number d ∷ es) result (d.delta ∷ rest))
      → send client d.delta o (consume client t es) ≡ (sent, gives result)
      → IsFaithfulFrom s (text_delta number d ∷ es) result sent
  unfolding send
  after_send s number d es result t (fails r) sent later e = absurd (no_end r e)
  after_send s number d es result t (gives x) sent later e =
      let rest = consume client t es in
      let last : rest.1 ≡ gives result = ap (λ (c : Consumed). c.1) e in
      subst (IsFaithfulFrom s (text_delta number d ∷ es) result) (ap (λ (c : Consumed). c.0) e)
        (later rest.0 (ap (λ r. (rest.0, r)) last))

  delta-IsFaithful :
      (s : Reading) (number : ℕ) (d : TextDelta) (es : List (ProviderEvent R))
      (result : GenerationResult) (sent : List Text)
      → After s.sequence number
      → Later es result
      → take_delta client
          (λ t. consume client t es)
          (record s { count = suc s.count; sequence = some number })
          d
        ≡ (sent, gives result)
      → IsFaithfulFrom s (text_delta number d ∷ es) result sent
  unfolding take_delta Later
  delta-IsFaithful s number d es result sent new later e =
      elim (Bool-cases (is_foreign s.identity d)) [
        | inl f ↦ absurd (no_end invalid (rw f at e))
        | inr f ↦ elim (Bool-cases (ltb 65536 (client.bytes (s.accumulated ++ d.delta)))) [
          | inl g ↦ absurd (no_end invalid (rw (f, g) at e))
          | inr g ↦
              after_send s number d es result _ (client.on_delta d.delta) sent
                (λ rest q. passed_on s number d es rest new f (later _ rest (ground (arith, g)) q))
                (rw (f, g) at e)
        ]
      ]

  event-IsFaithful :
      (es : List (ProviderEvent R)) (result : GenerationResult) (s : Reading)
      (event : ProviderEvent R) (sent : List Text)
      → result.refused ≡ false
      → Later es result
      → s.count < 12000
      → client.bytes s.accumulated ≤ 65536
      → on_event client (λ t. consume client t es) (record s { count = suc s.count }) event
        ≡ (sent, gives result)
      → IsFaithfulFrom s (event ∷ es) result sent
  unfolding on_event
  event-IsFaithful es result s (failure none) sent k later few small e =
      absurd (no_end incomplete (unfold report_failure in e))
  event-IsFaithful es result s (failure (some response)) sent k later few small e =
      absurd (report-no_end (client.validate_response response) (unfold report_failure in e))
  event-IsFaithful es result s malformed sent k later few small e = absurd (no_end invalid e)
  event-IsFaithful es result s (other number) sent k later few small e =
      elim (Bool-cases (is_stale s.sequence number)) [
        | inl f ↦ absurd (no_end invalid (rw f at e))
        | inr f ↦ skipped s number es sent (fresh_number s.sequence number f) (
            unfold Later in
            later (record s { count = suc s.count; sequence = some number }) sent small (rw f at e))
      ]
  event-IsFaithful es result s (text_delta number d) sent k later few small e =
      elim (Bool-cases (is_stale s.sequence number)) [
        | inl f ↦ absurd (no_end invalid (rw f at e))
        | inr f ↦
            delta-IsFaithful s number d es result sent (fresh_number s.sequence number f) later
              (rw f at e)
      ]
  event-IsFaithful es result s (completed number response) sent k later few small e =
      elim (Bool-cases (is_stale s.sequence number)) [
        | inl f ↦ absurd (no_end invalid (rw f at e))
        | inr f ↦
            let made : ◌≡◌ {A = Consumed}
                (
                  [],
                  complete client (record s { count = suc s.count; sequence = some number })
                      response (client.validate_response response),
                )
                (sent, gives result) =
              rw f at e in
            let c =
              complete-IsCompletion (record s { count = suc s.count; sequence = some number })
                response (ap (λ (x : Consumed). x.1) made) k in
            ended s number response es sent few (fresh_number s.sequence number f) small
              (ap (λ (x : Consumed). x.0) made)
              (record {
                place = c.place;
                output = c.output;
                known = c.known;
                validated = c.validated;
                parsed = c.parsed;
                same = c.same;
              })
      ]

  consume-IsFaithful :
      (es : List (ProviderEvent R)) (result : GenerationResult)
      → result.refused ≡ false
      → Later es result
  unfolding consume Later
  consume-IsFaithful [] result k s sent small e = absurd (no_end incomplete e)
  consume-IsFaithful (event ∷ es) result k s sent small e =
      elim (Bool-cases (ltb 12000 (suc s.count))) [
        | inl f ↦ absurd (no_end invalid (rw f at e))
        | inr f ↦
            event-IsFaithful es result s event sent k (consume-IsFaithful es result k)
              (ground (arith, f)) small (rw f at e)
      ]

  -- When `consume_stream` returns an answer that is no refusal, if an empty text has at most 65536
  -- bytes: the events are at most 12000 up to a completion, and before it only deltas and other
  -- events, all with rising numbers up to the completion's; the deltas name one item and index, that
  -- of the last, and are what has been sent on, in order; and their text, of at most 65536 bytes, is
  -- the one that the completion's validated response has at that place.
  pub consume_stream-IsFaithful :
      (events : List (ProviderEvent R)) (sent : List Text) (result : GenerationResult)
      → client.bytes [] ≤ 65536
      → result.refused ≡ false
      → consume_stream client events ≡ (sent, gives result)
      → IsFaithful events result sent
  unfolding consume_stream beginning
  consume_stream-IsFaithful events sent result small k e =
      unfold Later in consume-IsFaithful events result k beginning sent small e
