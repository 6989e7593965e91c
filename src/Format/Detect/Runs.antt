-- ===== src/Format/Detect/Runs.antt =====
-- The scan on an image of one section.
use rdwarfs.Format.Samples.{sample_image, sample_image-IsByte}
use rdwarfs.Format.Detect.{detect_base_offset}
use rdwarfs.Format.Detect.Least.{IsLeast, detect_base_offset-IsLeast}

detect_base_offset-IsLeast_example : IsLeast sample_image (detect_base_offset sample_image)
detect_base_offset-IsLeast_example = detect_base_offset-IsLeast sample_image sample_image-IsByte
