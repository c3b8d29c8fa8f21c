-- ===== src/Chat/Forward.antt =====
-- What the loop of the chat exercise, read_write_loop.c, forwards.
use lingi1341_projet.Prelude.{
  ℕ, zero, suc, ◌≡◌, refl, sym, ap, ap₂, ◌∙◌, ◌≢◌, true, false, none, some, List, [], ◌∷◌, ◌++◌,
  append_assoc, append-nil, take, replicate, All,
}
use lingi1341_projet.Chat.{
  Talk, Ready, select_fails, socket_set, input_set, nothing_set, goes_on, chat_round,
  read_write_loop,
}

-- No read fails.
abbrev pub IsRead : Ready → Type 0
IsRead select_fails = Unit {0}
IsRead nothing_set = Unit {0}
IsRead (socket_set answer done) = answer ≢ none
IsRead (input_set answer done) = answer ≢ none

-- The bytes for the standard output, and the datagrams for the socket.
abbrev pub shown_by : List Ready → List ℕ
shown_by [] = []
shown_by (socket_set (some bytes) true ∷ events) = take 1024 bytes ++ shown_by events
shown_by (_ ∷ events) = shown_by events

abbrev pub sent_by : List Ready → List (List ℕ)
sent_by [] = []
sent_by (input_set (some bytes) true ∷ events) = take 1024 bytes ∷ sent_by events
sent_by (_ ∷ events) = sent_by events

abbrev forwarded : List Ready → Talk → Talk
forwarded events t = record t {
  shown = t.shown ++ shown_by events;
  sent = t.sent ++ sent_by events;
}

-- As long as no read fails, the loop runs on, and has forwarded every block whose write succeeded, in
-- order: what comes from the socket to the standard output, what comes from the standard input to the
-- socket, one datagram per read.
pub read_write_loop-forwards :
    (events : List Ready) (t : Talk)
    → All IsRead events
    → read_write_loop events t ≡ goes_on (forwarded events t)
unfolding read_write_loop chat_round
read_write_loop-forwards [] t a =
    ap₂ (λ (s : List ℕ) (d : List (List ℕ)). goes_on (record t { shown = s; sent = d }))
      (sym (append-nil t.shown)) (sym (append-nil t.sent))
read_write_loop-forwards (select_fails ∷ events) t a = read_write_loop-forwards events t a.1
read_write_loop-forwards (nothing_set ∷ events) t a = read_write_loop-forwards events t a.1
read_write_loop-forwards (socket_set none done ∷ events) t a = absurd (a.0 refl)
read_write_loop-forwards (socket_set (some bytes) false ∷ events) t a =
    read_write_loop-forwards events t a.1
read_write_loop-forwards (socket_set (some bytes) true ∷ events) t a =
    read_write_loop-forwards events (record t { shown = t.shown ++ take 1024 bytes }) a.1
    ∙ ap (λ (s : List ℕ). goes_on (record t { shown = s; sent = t.sent ++ sent_by events }))
        (append_assoc t.shown (take 1024 bytes) (shown_by events))
read_write_loop-forwards (input_set none done ∷ events) t a = absurd (a.0 refl)
read_write_loop-forwards (input_set (some bytes) false ∷ events) t a =
    read_write_loop-forwards events t a.1
read_write_loop-forwards (input_set (some bytes) true ∷ events) t a =
    read_write_loop-forwards events (record t { sent = t.sent ++ (take 1024 bytes ∷ []) }) a.1
    ∙ ap
        (λ (d : List (List ℕ)). goes_on (record t { shown = t.shown ++ shown_by events; sent = d }))
        (append_assoc t.sent (take 1024 bytes ∷ []) (sent_by events))

-- The rounds at the end of the standard input.
abbrev pub at_end : ℕ → List Ready
at_end n = replicate n (input_set (some []) true)

at_end-IsRead : (n : ℕ) → All IsRead (at_end n)
unfolding replicate
at_end-IsRead zero = tt
at_end-IsRead (suc n) = (λ e. cc, at_end-IsRead n)

at_end-forwarded : (n : ℕ) → (shown_by (at_end n) ≡ []) × (sent_by (at_end n) ≡ replicate n [])
unfolding replicate
at_end-forwarded zero = (refl, refl)
at_end-forwarded (suc n) =
    let (s, d) = at_end-forwarded n in (s, ap (λ (l : List (List ℕ)). [] ∷ l) d)

-- At the end of the standard input the loop does not return: in every round in which the socket has
-- nothing to read it sends an empty datagram.
pub at_end-floods :
    (n : ℕ) (t : Talk)
    → read_write_loop (at_end n) t ≡ goes_on (record t { sent = t.sent ++ replicate n [] })
at_end-floods n t =
    let (s, d) = at_end-forwarded n in
    read_write_loop-forwards (at_end n) t (at_end-IsRead n)
    ∙ ap₂
        (λ (x : List ℕ) (y : List (List ℕ)).
          goes_on (record t { shown = t.shown ++ x; sent = t.sent ++ y }))
        s d
    ∙ ap (λ (x : List ℕ). goes_on (record t { shown = x; sent = t.sent ++ replicate n [] }))
        (append-nil t.shown)
