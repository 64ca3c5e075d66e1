-- ===== src/Client/Reading.antt =====
-- The client's side of the packet stream.
use qt_chat.Base.{ℕ, ◌≡◌, ap, ◌∙◌, List, [], ◌∷◌, ◌++◌, append-nil}
use qt_chat.Base.Lists.{Str}
use qt_chat.Wire.{on_message, deliver}
use qt_chat.Wire.Stream.{stream, AllFit, handle_all, deliver-stream}
use qt_chat.Client.{QtJson, Client, aborted, put}
use qt_chat.Client.Messages.{handle_bytes, on_ready_read}

module _ (J : QtJson) where
  open J use {Array}

  -- With an empty buffer, a `readyRead` that brings whole packets, with bodies of 1 byte to 1 MiB,
  -- handles exactly their bodies, in order, on the client with the time of the data set, and leaves
  -- the buffer empty.
  pub reads_stream :
      (now : ℕ) (bodies : List Str) (c : Client Array)
      → AllFit bodies
      → c.recv_buf ≡ []
      → on_ready_read J now (stream bodies) c
        ≡ record (handle_all (handle_bytes J) (put aborted) bodies (record c { last_data = now })) {
          recv_buf = [];
        }
  unfolding on_ready_read deliver
  reads_stream now bodies c fit empty =
      ap (λ buf. after (on_message (handle_bytes J) (put aborted) (buf ++ stream bodies) d)) empty
      ∙ ap after one_call
    where
      d : Client Array
      d = record c { last_data = now }

      after : Str × Client Array → Client Array
      after out = record (out.1) { recv_buf = out.0 }

      one_call :
          on_message (handle_bytes J) (put aborted) (stream bodies) d
          ≡ ([], handle_all (handle_bytes J) (put aborted) bodies d)
      one_call =
          deliver-stream (handle_bytes J) (put aborted) (stream bodies ∷ []) bodies d fit
            (append-nil (stream bodies))
