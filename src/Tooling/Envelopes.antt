-- ===== src/Tooling/Envelopes.antt =====
-- Text outside of envelopes passes the filter, and an envelope does not.
use amit_ai.Common.{
  Option, ◌==◌, length, take, ℕ, suc, ◌-◌, ◌≡◌, refl, ap, ◌∙◌, false, none, some, [], ◌∷◌, ◌++◌,
  append-nil, arith,
}
use amit_ai.Common.Texts.{Text, is_empty}
use amit_ai.Tooling.Protocol.{
  Filter, new_filter, reserved_starts, reserved_close, call_start, call_close, result_start,
  result_close, begins_any, suffix_from, longest_prefix_suffix, settle, behind, Rests, result_of,
  feed_normal_character, feed_suppressed_character, feed_character, feed, finish,
  sanitize_late_tool_protocol,
}
use amit_ai.Tooling.Filtering.{IsPlain, feed-append_states}

pub data Envelope : Type 0 where
  call result : Envelope

abbrev pub start_of : Envelope → Text
start_of call = call_start
start_of result = result_start

abbrev pub close_of : Envelope → Text
close_of call = call_close
close_of result = result_close

abbrev suppressing : Envelope → Filter
suppressing e = record new_filter { closing = some (close_of e) }

other_way : (c d : ℕ) → c == d ≡ false → d == c ≡ false
other_way c d h = ground arith

-- one turn of the loop that settles, on what cannot be reserved
settle-visible :
    (f : ℕ) (s : Filter)
    → is_empty s.pending ≡ false
    → reserved_close s.pending ≡ none
    → begins_any s.pending reserved_starts ≡ false
    → let suffix = longest_prefix_suffix s.pending reserved_starts in
      settle (suc f) s
      ≡ behind
          (take (length s.pending - length suffix) s.pending)
          (settle f (record s { pending = suffix }))
unfolding settle
settle-visible f s pending open_ visible = rw (pending, open_, visible, settle) refl

result_of-eq :
    (o : Option (Filter × Text)) (h : Rests o) (r : Filter × Text) → o ≡ some r → result_of o h ≡ r
unfolding result_of
result_of-eq none h r e = elim h [ ]
result_of-eq (some s) h r e = cc

plain-unreserved : (c : ℕ) → c == b'<' ≡ false → reserved_close (c ∷ []) ≡ none
unfolding reserved_close
plain-unreserved c h = rw h refl

plain-begins_none : (c : ℕ) → c == b'<' ≡ false → begins_any (c ∷ []) reserved_starts ≡ false
plain-begins_none c h = rw (other_way c b'<' h) refl

plain-no_suffix : (c : ℕ) → c == b'<' ≡ false → longest_prefix_suffix (c ∷ []) reserved_starts ≡ []
unfolding longest_prefix_suffix suffix_from
plain-no_suffix c h = rw (other_way c b'<' h) refl

plain-passes : (c : ℕ) → c == b'<' ≡ false → feed_character c new_filter ≡ (new_filter, c ∷ [])
unfolding feed_character feed_normal_character settle
plain-passes c h = result_of-eq _ _ _ (
    settle-visible 1 (record new_filter { pending = c ∷ [] }) refl (plain-unreserved c h)
      (plain-begins_none c h)
    ∙ ap
        (λ suffix.
          behind (take (1 - length suffix) (c ∷ []))
            (settle 1 (record new_filter { pending = suffix })))
        (plain-no_suffix c h))

plain-suppressed :
    (e : Envelope) (c : ℕ)
    → c == b'<' ≡ false
    → feed_character c (suppressing e) ≡ (suppressing e, [])
unfolding feed_character feed_suppressed_character longest_prefix_suffix suffix_from
plain-suppressed call c h = rw (h, other_way c b'<' h) refl
plain-suppressed result c h = rw (h, other_way c b'<' h) refl

feed-plain : (text : Text) → IsPlain text → feed text new_filter ≡ (new_filter, text)
unfolding feed
feed-plain [] h = refl
feed-plain (c ∷ text) (h, plain) = rw (plain-passes c h, feed-plain text plain) refl

feed-inside :
    (e : Envelope) (text : Text) → IsPlain text → feed text (suppressing e) ≡ (suppressing e, [])
unfolding feed
feed-inside e [] h = refl
feed-inside e (c ∷ text) (h, plain) =
    ap (λ (r : Filter × Text). ((feed text r.0).0, r.1 ++ (feed text r.0).1))
      (plain-suppressed e c h)
    ∙ feed-inside e text plain

feed-start : (e : Envelope) → feed (start_of e) new_filter ≡ (suppressing e, [])
unfolding feed feed_character feed_normal_character settle result_of reserved_close
    longest_prefix_suffix suffix_from
feed-start call = refl
feed-start result = refl

feed-close : (e : Envelope) → feed (close_of e) (suppressing e) ≡ (new_filter, [])
unfolding feed feed_character feed_suppressed_character longest_prefix_suffix suffix_from
feed-close call = refl
feed-close result = refl

-- A text without `<` passes the filter unchanged.
pub sanitize-plain : (text : Text) → IsPlain text → sanitize_late_tool_protocol text ≡ text
unfolding sanitize_late_tool_protocol finish
sanitize-plain text plain = rw (feed-plain text plain) (append-nil text)

-- Of a text with one envelope, without any other `<`, the filter leaves what stands before and
-- after the envelope.
pub sanitize-envelope :
    (e : Envelope) (before inside after : Text)
    → IsPlain before
    → IsPlain inside
    → IsPlain after
    → sanitize_late_tool_protocol (before ++ (start_of e ++ (inside ++ (close_of e ++ after))))
      ≡ before ++ after
unfolding sanitize_late_tool_protocol finish
sanitize-envelope e before inside after p q r =
    rw
      (
        feed-append_states before (start_of e ++ (inside ++ (close_of e ++ after))) new_filter,
        feed-plain before p,
        feed-append_states (start_of e) (inside ++ (close_of e ++ after)) new_filter,
        feed-start e,
        feed-append_states inside (close_of e ++ after) (suppressing e),
        feed-inside e inside q,
        feed-append_states (close_of e) after (suppressing e),
        feed-close e,
        feed-plain after r,
      )
      (append-nil (before ++ after))

-- Of a text that ends inside an envelope, without any other `<`, the filter leaves what stands
-- before the envelope.
pub sanitize-open_envelope :
    (e : Envelope) (before inside : Text)
    → IsPlain before
    → IsPlain inside
    → sanitize_late_tool_protocol (before ++ (start_of e ++ inside)) ≡ before
unfolding sanitize_late_tool_protocol finish
sanitize-open_envelope e before inside p q =
    rw
      (
        feed-append_states before (start_of e ++ inside) new_filter,
        feed-plain before p,
        feed-append_states (start_of e) inside new_filter,
        feed-start e,
        feed-inside e inside q,
      )
      (append-nil (before ++ []) ∙ append-nil before)
