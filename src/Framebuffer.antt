-- ===== src/Framebuffer.antt =====
-- src/adbd/framebuffer_service.c: the picture that `screencap` writes to a pipe is described and
-- copied to the client. The pipe and the client are a source and a sink.
pub mod Frames
use adbd.Base.{
  Option, none, some, ℕ, zero, suc, ◌+◌, ◌*◌, ◌/◌, ◌%◌, ◌^◌, true, false, List, [], ◌∷◌, Bytes, ltb,
  ◌==◌, if◌then◌else◌, get_or,
}
use adbd.Io.{Source, Got, got, lost, unfinished, readx, Sink, Put, done, broken, exhausted, writex}
use adbd.Packet.Wire.{le32}

-- `struct fbinfo`
pub record Fbinfo : Type 0 where
  pub version : ℕ
  pub bpp : ℕ
  pub size : ℕ
  pub width : ℕ
  pub height : ℕ
  pub red_offset : ℕ
  pub red_length : ℕ
  pub blue_offset : ℕ
  pub blue_length : ℕ
  pub green_offset : ℕ
  pub green_length : ℕ
  pub alpha_offset : ℕ
  pub alpha_length : ℕ

abbrev pub fbinfo_bytes : Fbinfo → Bytes
fbinfo_bytes b = le32 b.version (
    le32 b.bpp (
      le32 b.size (
        le32 b.width (
          le32 b.height (
            le32 b.red_offset (
              le32 b.red_length (
                le32 b.blue_offset (
                  le32 b.blue_length (
                    le32 b.green_offset
                      (le32 b.green_length (le32 b.alpha_offset (le32 b.alpha_length []))))))))))))

-- A format of eight bits a colour, with the offsets of red and blue.
abbrev eights : ℕ → ℕ → ℕ → ℕ → ℕ → ℕ → Fbinfo
eights bytes w h red blue alpha = record {
  version = 1;
  bpp = bytes * 8;
  size = w * h * bytes % 2 ^ 32;
  width = w;
  height = h;
  red_offset = red;
  red_length = 8;
  blue_offset = blue;
  blue_length = 8;
  green_offset = 8;
  green_length = 8;
  alpha_offset = 24;
  alpha_length = alpha;
}

-- The switch, in its order: RGBA_8888, RGBX_8888, RGB_888, RGB_565, BGRA_8888.
unfoldable pub pixel_format : ℕ → ℕ → ℕ → Option Fbinfo
pixel_format f w h =
    if f == 1
    then some (eights 4 w h 0 16 8)
    else if f == 2
    then some (eights 4 w h 0 16 0)
    else if f == 3
    then some (eights 3 w h 0 16 0)
    else if f == 4
    then some (record (eights 2 w h 11 0 0) {
      red_length = 5;
      blue_length = 5;
      green_offset = 5;
      green_length = 6;
      alpha_offset = 0;
    })
    else if f == 5
    then some (eights 4 w h 16 0 8)
    else none

-- What a part of the copy comes to. A read that wants more than the child writes stops it: the end
-- of the pipe that is written to stays open in this process, so that it waits.
pub data Copying : Type 0 where
  copied : Source → Sink → Copying
  stopped : Sink → Copying
  short_of_fuel : Copying

abbrev sent_on : Source → Sink → Put → Copying
sent_on src out (done k) = copied src k
sent_on src out (broken k) = stopped k
sent_on src out exhausted = short_of_fuel

abbrev pass_on : Sink → Got → Copying
pass_on out (got bs s) = sent_on s out (writex bs out)
pass_on out (lost s) = stopped out
pass_on out unfinished = short_of_fuel

-- `readx(fd_screencap,buf,n)||writex(fd,buf,n)`
unfoldable pub copy_chunk : ℕ → Source → Sink → Copying
unfolding readx writex
copy_chunk n src out = pass_on out (readx n src)

abbrev pub then_copy : Copying → (Source → Sink → Copying) → Copying
then_copy (copied s k) f = f s k
then_copy (stopped k) f = stopped k
then_copy short_of_fuel f = short_of_fuel

-- The loop over whole buffers of 640 bytes, from `i` on.
unfoldable pub copy_loop : ℕ → ℕ → ℕ → Source → Sink → Copying
unfolding copy_chunk
copy_loop zero i size src out = short_of_fuel
copy_loop (suc f) i size src out = elim (ltb i size) [
  | true ↦ then_copy (copy_chunk 640 src out) (copy_loop f ((i + 640) % 2 ^ 32) size)
  | false ↦ copied src out
]

-- Behind the description: the loop, and what it is meant to leave.
unfoldable pub copy_frame : ℕ → Source → Sink → Copying
unfolding copy_loop copy_chunk
copy_frame size src out = then_copy (copy_loop (suc size) 0 size src out) (copy_chunk (size % 640))

abbrev int_at : Bytes → ℕ
int_at bs = get_or bs 0 0 + get_or bs 1 0 * 256 + get_or bs 2 0 * 65536 + get_or bs 3 0 * 16777216

-- One int off the pipe.
abbrev pub read_int : Source → Sink → (ℕ → Source → Copying) → Copying
read_int src out k = elim (readx 4 src) [
  | got bs s ↦ k (int_at bs) s
  | lost s ↦ stopped out
  | unfinished ↦ short_of_fuel
]

abbrev pub described : Option Fbinfo → Source → Sink → Copying
described none src out = stopped out
described (some b) src out =
    then_copy (sent_on src out (writex (fbinfo_bytes b) out)) (copy_frame b.size)

-- `framebuffer_service` once the child runs.
unfoldable pub framebuffer_service : Source → Sink → Copying
unfolding readx writex pixel_format copy_frame
framebuffer_service src out = read_int src out (λ w s.
    read_int s out (λ h s'. read_int s' out (λ f s''. described (pixel_format f w h) s'' out)))
