-- ===== src/Examples/Buffers.antt =====
-- The theorems on src/buffer.c at concrete inputs.
use yabwf.Prelude.{◌≡◌, refl, [], ◌∷◌, ◌++◌, arith, Bytes, codes}
use yabwf.Escape.{escape_byte}
use yabwf.Buffer.{
  write, Output, req_write, req_write_escape_http, html_byte, req_write_escape_html, wrote,
  would_block, req_flush,
}
use yabwf.Buffer.Room.{HasRoom, writes-HasRoom}
use yabwf.Buffer.Content.{Written, escapes-Written}
use yabwf.Buffer.Flush.{WellFormed, pending, flushes, flushes_deliver}

abbrev half_sent : Output
half_sent = record { status = write; buffer = codes "hello"; buffer_start = 2 }

abbrev tag : Bytes
tag = codes "<a b>&"

half_sent-WellFormed : WellFormed half_sent
half_sent-WellFormed = record { start_le = omega arith; end_le = omega arith }

writes-HasRoom_example :
    HasRoom (req_write tag half_sent).0
    × HasRoom (req_write_escape_http 64 tag half_sent).0
    × HasRoom (req_write_escape_html tag half_sent).0
writes-HasRoom_example = writes-HasRoom 64 tag half_sent (omega arith) (omega arith)

escapes-Written_example :
    Written (escape_byte 64) tag half_sent (req_write_escape_http 64 tag half_sent)
    × Written html_byte tag half_sent (req_write_escape_html tag half_sent)
escapes-Written_example = escapes-Written 64 tag half_sent

flushes_deliver_example :
    WellFormed (flushes (wrote 2 ∷ would_block ∷ []) half_sent).1
    × ((flushes (wrote 2 ∷ would_block ∷ []) half_sent).1.status ≡ write)
    × ((flushes (wrote 2 ∷ would_block ∷ []) half_sent).0
          ++ pending (flushes (wrote 2 ∷ would_block ∷ []) half_sent).1
        ≡ codes "llo")
unfolding req_flush
flushes_deliver_example =
    flushes_deliver (wrote 2 ∷ would_block ∷ []) half_sent half_sent-WellFormed refl
      ((λ e. cc), omega arith, ((λ e. cc), tt, tt))
