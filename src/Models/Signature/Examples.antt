-- ===== src/Models/Signature/Examples.antt =====
-- models/signature.go: the frame of one payload and signature.
use tillit.Base.{codes, ◌<◌, ◌^◌, length, ◌≡◌, refl, arith}
use tillit.Models.Signature.Framing.{frame-injective}

short : length (codes "ab") < 2 ^ 64
short = omega arith

frame-injective_example : (codes "ab" ≡ codes "ab") × (codes "c" ≡ codes "c")
frame-injective_example =
    frame-injective (codes "ab") (codes "ab") (codes "c") (codes "c") short short refl
