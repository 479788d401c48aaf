-- ===== src/Video/Tests.antt =====
-- Tests of drawing on a screen of 4 by 3.
use snowkernel.Base.{true, ◌&&◌, if◌then◌else◌, ◌≡◌, refl, arith}
use snowkernel.Base.Int.{pos, negsuc}
use snowkernel.Video.{Screen, video_fillrect}
use snowkernel.Video.Clip.{covers}
use snowkernel.Video.Bounds.{IsMode}
use snowkernel.Video.Rect.{pixel, video_fillrect-pixel}

abbrev screen : Screen
screen = record { width = 4; height = 3; pitch = 16; available = true; fb = λ i. 0 }

screen-IsMode : IsMode screen
screen-IsMode = record { rows = refl; small = omega arith }

video_fillrect-pixel_example :
    pixel (video_fillrect screen (negsuc 0) (pos 1) (pos 3) (pos 9) 5) 1 2
    ≡ (if covers (negsuc 0) (pos 3) 1 && covers (pos 1) (pos 9) 2 then 5 else pixel screen 1 2)
video_fillrect-pixel_example =
    video_fillrect-pixel screen (negsuc 0) (pos 1) (pos 3) (pos 9) 5 1 2 screen-IsMode refl refl
      refl (omega arith) (omega arith)
