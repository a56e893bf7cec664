-- ===== src/Tests/Pictures.antt =====
-- `framebuffer_service` with a picture of two pixels.
use adbd.Base.{some, ◌≡◌, refl, [], ◌∷◌, ◌++◌, arith, codes}
use adbd.Io.{Sink, give, fault, eintr}
use adbd.Packet.Wire.{le32}
use adbd.Framebuffer.{Fbinfo, fbinfo_bytes, pixel_format, framebuffer_service}
use adbd.Framebuffer.Frames.{Frames, framebuffer_service-Frames}

abbrev two_pixels : Fbinfo
two_pixels = record {
  version = 1;
  bpp = 32;
  size = 8;
  width = 2;
  height = 1;
  red_offset = 0;
  red_length = 8;
  blue_offset = 16;
  blue_length = 8;
  green_offset = 8;
  green_length = 8;
  alpha_offset = 24;
  alpha_length = 8;
}

abbrev client : Sink
client = record { written = codes "OKAY"; plan = give 5 ∷ [] }

framebuffer_service-Frames_example :
    Frames (codes "OKAY" ++ fbinfo_bytes two_pixels) (codes "RGBARGBA") (
      framebuffer_service
        (record {
          bytes = le32 2 (le32 1 (le32 1 (codes "RGBARGBA")));
          plan = fault eintr ∷ (give 3 ∷ []);
        })
        client)
framebuffer_service-Frames_example =
    framebuffer_service-Frames 2 1 1 two_pixels (codes "RGBARGBA") (fault eintr ∷ (give 3 ∷ []))
      client (omega arith) (omega arith) (omega arith) is refl (omega arith) (tt, (tt, tt)) (tt, tt)
  where
    is : pixel_format 1 2 1 ≡ some two_pixels
    is = unfold pixel_format in refl
