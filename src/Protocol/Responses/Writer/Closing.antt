-- ===== src/Protocol/Responses/Writer/Closing.antt =====
-- The end of a stream of the Responses protocol.
use clean_api.Base.{
  ℕ, String, Bool, true, false, Option, none, some, List, [], ◌∷◌, ◌≡◌, ◌≢◌, refl, All, if-holds,
  ◌⊎◌, inl, inr, ◌==◌, string_equality, lookup,
}
use clean_api.Base.Int.{ℤ, int_equality}
use clean_api.Protocol.Ir.{
  StreamEvent, text_delta, tool_call_start, tool_call_delta, tool_call_stop, done, Usage,
}
use clean_api.Protocol.Responses.Writer.{
  Payload, message_added, call_added, output_text_delta, arguments_delta, response_completed,
  error_event, Sink, ResponsesWriter, new_responses_writer, with_message, Outcome, next, put, write,
  flush_writer, end_flushed, finish_with, numbered_message, ensure_message, write_text, call_of,
  numbered_call, start_call, grow_call, handle, write_event, finish, write_events,
}

abbrev pub is_end : Payload → Bool
is_end (response_completed _ _) = true
is_end (error_event _) = true
is_end (message_added _ _) = false
is_end (call_added _ _) = false
is_end (output_text_delta _ _ _) = false
is_end (arguments_delta _ _) = false

-- Nothing that ends the stream was written.
abbrev pub IsOpen : List Payload → Type 0
IsOpen = All (λ p. is_end p ≡ false)

-- What ends the stream, if it was written at all, was written last and once.
abbrev pub IsEndedOnce : List Payload → Type 0
IsEndedOnce [] = Unit
IsEndedOnce (p ∷ ps) = IsOpen ps

IsOpen-IsEndedOnce : (ps : List Payload) → IsOpen ps → IsEndedOnce ps
IsOpen-IsEndedOnce [] h = tt
IsOpen-IsEndedOnce (p ∷ ps) (e, h) = h

abbrev Alive : ResponsesWriter → Type 0
Alive s = (s.is_done ≡ false) × IsOpen s.out

abbrev HasEnd : Bool → List Payload → Type 0
HasEnd true ps = IsEndedOnce ps
HasEnd false ps = IsOpen ps

abbrev Sound : ResponsesWriter → Type 0
Sound s = HasEnd s.is_done s.out

Sound-Alive : (s : ResponsesWriter) → Alive s → Sound s
Sound-Alive s (d, h) = rw d h

-- The stream is closed, or an error was returned and nothing that ends it was written.
abbrev pub IsFinished : Outcome → Type 0
IsFinished (s, e) =
    ((s.is_done ≡ true) × IsEndedOnce s.out) ⊎ ((e ≢ none) × (s.is_done ≡ false) × IsOpen s.out)

module _ (sink : Sink) where
  Alive-put :
      (p : Payload) (s : ResponsesWriter) (e : Option String)
      → is_end p ≡ false
      → Alive s
      → Alive (put sink p s e).0
  Alive-put p s none m (d, h) = (d, (m, h))
  Alive-put p s (some e) m h = h

  Alive-write :
      (p : Payload) (s : ResponsesWriter) → is_end p ≡ false → Alive s → Alive (write sink p s).0
  unfolding write
  Alive-write p s m h = Alive-put p s (sink.write_error s.out p) m h

  Alive-next :
      (k : ResponsesWriter → Outcome) (r : Outcome)
      → ((s : ResponsesWriter) → Alive s → Alive (k s).0)
      → Alive r.0
      → Alive (next k r).0
  Alive-next k (s, none) f h = f s h
  Alive-next k (s, some e) f h = h

  Alive-ensure_message : (s : ResponsesWriter) → Alive s → Alive (ensure_message sink s).0
  unfolding ensure_message
  Alive-ensure_message s h =
      if-holds (λ (r : Outcome). Alive r.0) (s.msg_item_id == "") _ _
        (λ e. Alive-write _ (numbered_message s) refl h) (λ e. h)

  Alive-write_text : (t : String) (s : ResponsesWriter) → Alive s → Alive (write_text sink t s).0
  unfolding write_text
  Alive-write_text t s h = Alive-next (flush_writer sink) _ (λ u k. k) (Alive-write _ _ refl h)

  Alive-grow_call :
      (i : ℤ) (arguments : String) (s : ResponsesWriter) (o : Option String)
      → Alive s
      → Alive (grow_call sink i arguments s o).0
  Alive-grow_call i arguments s none h = h
  Alive-grow_call i arguments s (some id) h =
      Alive-next (flush_writer sink) _ (λ u k. k) (Alive-write _ s refl h)

  IsFinished-put :
      (p : Payload) (s : ResponsesWriter) (e : Option String)
      → Alive s
      → IsFinished (next (end_flushed sink) (put sink p s e))
  IsFinished-put p s none (d, h) = inl (refl, h)
  IsFinished-put p s (some e) (d, h) = inr (λ q. cc, d, h)

  Alive-with_message : (s : ResponsesWriter) → Alive s → Alive (with_message s)
  Alive-with_message s h = if-holds Alive (s.msg_item_id == "") _ _ (λ e. h) (λ e. h)

  IsFinished-finish_with :
      (usage : Option Usage) (s : ResponsesWriter) → Alive s → IsFinished (finish_with sink usage s)
  unfolding finish_with write
  IsFinished-finish_with usage s h = IsFinished-put _ (with_message s) _ (Alive-with_message s h)

  Sound-IsFinished : (r : Outcome) → IsFinished r → Sound r.0
  Sound-IsFinished (s, e) (inl (d, h)) = rw d h
  Sound-IsFinished (s, e) (inr (n, d, h)) = Sound-Alive s (d, h)

  Sound-handle : (ev : StreamEvent) (s : ResponsesWriter) → Alive s → Sound (handle sink ev s).0
  unfolding handle start_call
  Sound-handle (text_delta t) s h =
      Sound-Alive (next (write_text sink t) (ensure_message sink s)).0 (
        Alive-next (write_text sink t) (ensure_message sink s) (Alive-write_text t)
          (Alive-ensure_message s h))
  Sound-handle (tool_call_start i id name) s h =
      Sound-Alive
        (write sink (call_added s.item_seq (call_of s id name))
          (numbered_call i (call_of s id name) s)).0
        (Alive-write _ (numbered_call i (call_of s id name) s) refl h)
  Sound-handle (tool_call_delta i arguments) s h =
      Sound-Alive (grow_call sink i arguments s (lookup i s.call_item_ids)).0
        (Alive-grow_call i arguments s (lookup i s.call_item_ids) h)
  Sound-handle (tool_call_stop i) s h = Sound-Alive s h
  Sound-handle (done reason usage) s h =
      Sound-IsFinished (finish_with sink usage s) (IsFinished-finish_with usage s h)

  Sound-write_event :
      (ev : StreamEvent) (s : ResponsesWriter) → Sound s → Sound (write_event sink ev s).0
  unfolding write_event
  Sound-write_event ev s h =
      if-holds (λ (r : Outcome). Sound r.0) s.is_done (s, none) (handle sink ev s) (λ d. h)
        (λ d. Sound-handle ev s (d, rw d at h))

  Sound-next :
      (k : ResponsesWriter → Outcome) (r : Outcome)
      → ((s : ResponsesWriter) → Sound s → Sound (k s).0)
      → Sound r.0
      → Sound (next k r).0
  Sound-next k (s, none) f h = f s h
  Sound-next k (s, some e) f h = h

  Sound-write_events :
      (evs : List StreamEvent) (s : ResponsesWriter) → Sound s → Sound (write_events sink evs s).0
  unfolding write_events
  Sound-write_events [] s h = h
  Sound-write_events (ev ∷ evs) s h =
      Sound-next (write_events sink evs) (write_event sink ev s) (Sound-write_events evs)
        (Sound-write_event ev s h)

  IsFinished-finish : (s : ResponsesWriter) → Sound s → IsFinished (finish sink s)
  unfolding finish
  IsFinished-finish s h =
      if-holds IsFinished s.is_done (s, none) (finish_with sink none s) (λ d. inl (d, rw d at h))
        (λ d. IsFinished-finish_with none s (d, rw d at h))

-- For every sequence of stream events and every sink, failing ones included: after the events and
-- the finish the stream is closed, and what ends it, the completed response or an error, was written
-- at most once and nothing after it, or the finish returned an error and nothing that ends the
-- stream was written.
pub finish-write_events-IsFinished :
    (sink : Sink) (now : ℕ) (id model : String) (created : ℕ) (evs : List StreamEvent)
    → IsFinished (finish sink (write_events sink evs (new_responses_writer now id model created)).0)
unfolding new_responses_writer
finish-write_events-IsFinished sink now id model created evs =
    IsFinished-finish sink (write_events sink evs (new_responses_writer now id model created)).0
      (Sound-write_events sink evs (new_responses_writer now id model created) tt)
