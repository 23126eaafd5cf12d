-- ===== src/Protocol/OpenAi/Writer/Marker.antt =====
-- The end marker of an OpenAI stream.
use clean_api.Base.{
  ℕ, String, Bool, true, false, Option, none, some, List, [], ◌∷◌, ◌≡◌, refl, All, if◌then◌else◌,
}
use clean_api.Protocol.Ir.{
  StreamEvent, text_delta, tool_call_start, tool_call_delta, tool_call_stop, done,
}
use clean_api.Protocol.OpenAi.Writer.{
  Line, content_chunk, tool_chunk, arguments_chunk, last_chunk, error_chunk, done_marker, Sink,
  ChatWriter, new_chat_writer, any_nil, put, write_chunk, flushed, set_done, mark_done, end_stream,
  handle, write_event, finish, next, write_events,
}

abbrev pub is_marker : Line → Bool
is_marker done_marker = true
is_marker (content_chunk _) = false
is_marker (tool_chunk _ _ _) = false
is_marker (arguments_chunk _ _) = false
is_marker (last_chunk _ _) = false
is_marker (error_chunk _) = false

-- No marker was written.
abbrev pub IsUnmarked : List Line → Type 0
IsUnmarked = All (λ l. is_marker l ≡ false)

-- The marker, if it was written at all, is the last line and the only marker.
abbrev pub IsMarkedOnce : List Line → Type 0
IsMarkedOnce [] = Unit
IsMarkedOnce (l ∷ ls) = IsUnmarked ls

abbrev HasMarker : Bool → List Line → Type 0
HasMarker true ls = IsMarkedOnce ls
HasMarker false ls = IsUnmarked ls

abbrev Marked : ChatWriter → Type 0
Marked s = HasMarker s.is_done s.out

IsUnmarked-IsMarkedOnce : (ls : List Line) → IsUnmarked ls → IsMarkedOnce ls
IsUnmarked-IsMarkedOnce [] h = tt
IsUnmarked-IsMarkedOnce (l ∷ ls) (e, h) = h

-- The writer is not done, and nothing is marked.
abbrev Live : ChatWriter → Type 0
Live s = (s.is_done ≡ false) × IsUnmarked s.out

Marked-Live : (s : ChatWriter) → Live s → Marked s
Marked-Live s (d, h) = rw d h

-- The stream is done, and marked at most once.
abbrev pub Ended : ChatWriter → Type 0
Ended s = (s.is_done ≡ true) × IsMarkedOnce s.out

module _ (sink : Sink) where
  Live-put :
      (l : Line) (s : ChatWriter) (e : Option String)
      → is_marker l ≡ false
      → Live s
      → Live (put sink l s e).0
  Live-put l s none m (d, h) = (d, (m, h))
  Live-put l s (some e) m h = h

  Live-write_chunk :
      (l : Line) (s : ChatWriter) → is_marker l ≡ false → Live s → Live (write_chunk sink l s).0
  unfolding write_chunk
  Live-write_chunk l s m h = Live-put l s (sink.write_error s.out l) m h

  IsMarkedOnce-put :
      (s : ChatWriter) (e : Option String) → Live s → IsMarkedOnce (put sink done_marker s e).0.out
  IsMarkedOnce-put s none (d, h) = h
  IsMarkedOnce-put s (some e) (d, h) = IsUnmarked-IsMarkedOnce s.out h

  IsMarkedOnce-write_chunk :
      (s : ChatWriter) → Live s → IsMarkedOnce (write_chunk sink done_marker s).0.out
  unfolding write_chunk
  IsMarkedOnce-write_chunk s h = IsMarkedOnce-put s (sink.write_error s.out done_marker) h

  Marked-flushed : (r : ChatWriter × Option String) → Marked r.0 → Marked (flushed sink r).0
  Marked-flushed (s, none) h = h
  Marked-flushed (s, some e) h = h

  Marked-mark_done : (r : ChatWriter × Option String) → Live r.0 → Marked (mark_done sink r).0
  Marked-mark_done (s, none) h =
      Marked-flushed (set_done sink (write_chunk sink done_marker s)) (IsMarkedOnce-write_chunk s h)
  Marked-mark_done (s, some e) h = Marked-Live s h

  Ended-end_stream : (r : ChatWriter × Option String) → Live r.0 → Ended (end_stream sink r).0
  Ended-end_stream (s, e) h = (refl, IsMarkedOnce-write_chunk s h)

  Marked-chunk :
      (l : Line) (s : ChatWriter)
      → is_marker l ≡ false
      → Live s
      → Marked (flushed sink (write_chunk sink l s)).0
  Marked-chunk l s m h =
      Marked-flushed (write_chunk sink l s)
        (Marked-Live (write_chunk sink l s).0 (Live-write_chunk l s m h))

  Marked-handle : (ev : StreamEvent) (s : ChatWriter) → Live s → Marked (handle sink ev s).0
  unfolding handle
  Marked-handle (text_delta t) s h = Marked-chunk (content_chunk t) s refl h
  Marked-handle (tool_call_start i id n) s h = Marked-chunk (tool_chunk i id n) s refl h
  Marked-handle (tool_call_delta i args) s h = Marked-chunk (arguments_chunk i args) s refl h
  Marked-handle (tool_call_stop i) s h = Marked-Live s h
  Marked-handle (done reason usage) s h =
      Marked-mark_done (write_chunk sink (last_chunk (any_nil reason) usage) s)
        (Live-write_chunk (last_chunk (any_nil reason) usage) s refl h)

  if-Marked :
      (b : Bool) (x y : ChatWriter × Option String)
      → (b ≡ true → Marked x.0)
      → (b ≡ false → Marked y.0)
      → Marked (if b then x else y).0
  if-Marked true x y f g = f refl
  if-Marked false x y f g = g refl

  Marked-write_event :
      (ev : StreamEvent) (s : ChatWriter) → Marked s → Marked (write_event sink ev s).0
  unfolding write_event
  Marked-write_event ev s h =
      if-Marked s.is_done (s, none) (handle sink ev s) (λ d. h)
        (λ d. Marked-handle ev s (d, rw d at h))

  Marked-next :
      (k : ChatWriter → ChatWriter × Option String) (r : ChatWriter × Option String)
      → ((s : ChatWriter) → Marked s → Marked (k s).0)
      → Marked r.0
      → Marked (next sink k r).0
  Marked-next k (s, none) f h = f s h
  Marked-next k (s, some e) f h = h

  Marked-write_events :
      (evs : List StreamEvent) (s : ChatWriter) → Marked s → Marked (write_events sink evs s).0
  unfolding write_events
  Marked-write_events [] s h = h
  Marked-write_events (ev ∷ evs) s h =
      Marked-next (write_events sink evs) (write_event sink ev s) (Marked-write_events evs)
        (Marked-write_event ev s h)

  if-Ended :
      (b : Bool) (x y : ChatWriter × Option String)
      → (b ≡ true → Ended x.0)
      → (b ≡ false → Ended y.0)
      → Ended (if b then x else y).0
  if-Ended true x y f g = f refl
  if-Ended false x y f g = g refl

  Ended-finish : (s : ChatWriter) → Marked s → Ended (finish sink s).0
  unfolding finish
  Ended-finish s h =
      if-Ended s.is_done (s, none) (end_stream sink (s, none)) (λ d. (d, rw d at h))
        (λ d. Ended-end_stream (s, none) (d, rw d at h))

-- For every sequence of stream events and every sink, failing ones included: after the events and
-- the finish the stream is done, the end marker was written at most once and nothing after it.
pub finish-write_events-Ended :
    (sink : Sink) (id model : String) (created : ℕ) (evs : List StreamEvent)
    → Ended (finish sink (write_events sink evs (new_chat_writer id model created)).0).0
unfolding new_chat_writer
finish-write_events-Ended sink id model created evs =
    Ended-finish sink (write_events sink evs (new_chat_writer id model created)).0
      (Marked-write_events sink evs (new_chat_writer id model created) tt)
