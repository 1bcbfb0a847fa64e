-- ===== src/Shared/Tests.antt =====
-- The segment of three pages of a kernel with two segments.
use jeffos.Base.{ℕ, [], arith, length-replicate, replicate}
use jeffos.Pages.Sample.{sample, sample-IsMemory}
use jeffos.KMem.Sample.{one_taken32}
use jeffos.Kernel.{Kernel}
use jeffos.Kernel.Sample.{kernel_on}
use jeffos.Shared.{sm_attach_seg}
use jeffos.Shared.Attach.{AttachEnd, sm_attach_seg-AttachEnd}

abbrev with_segments : Kernel
with_segments = record (kernel_on one_taken32.0) {
  machine = record (kernel_on one_taken32.0).machine {
    kernel = sample;
    aspace = λ a. record { pdir = []; refcount = 1; ptab = replicate 1024 0; high = [] };
  };
}

sm_attach_seg-AttachEnd_example :
    AttachEnd 0 with_segments 0 0x80009FF0 (sm_attach_seg 0 with_segments 0 0x80009FF0)
sm_attach_seg-AttachEnd_example =
    sm_attach_seg-AttachEnd 0 with_segments 0 0x80009FF0 (omega arith)
      (length-replicate {A = ℕ} 64 0) sample-IsMemory (length-replicate {A = ℕ} 1024 0)
      (omega arith)
