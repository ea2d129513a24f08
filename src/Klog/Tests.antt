-- ===== src/Klog/Tests.antt =====
-- An example of a log of three characters.
use my_os.Prelude.{ℕ, false, ◌≡◌, List, [], ◌∷◌, replicate, length-replicate, length}
use my_os.Klog.{Klog, klog_buffer_size}

-- A buffer of any content, shut so that it is not written out.
buffer_before : List ℕ
buffer_before = replicate klog_buffer_size 0

buffer_before-length : length buffer_before ≡ klog_buffer_size
unfolding buffer_before
buffer_before-length = length-replicate {A = ℕ} klog_buffer_size 0

abbrev log_before : Klog
log_before = record { buffer = buffer_before; head = 5; count = 0; initialized = false }

abbrev line : List ℕ
line = 104 ∷ 105 ∷ 10 ∷ []
