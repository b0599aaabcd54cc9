-- ===== src/Spinlock/Tests.antt =====
-- Two processors and one lock (kernel/core/spinlock.c).
use black_kernel.Base.{◌≡◌, refl}
use black_kernel.Spinlock.{
  outside, swapping, waiting, init, move, try_swap, Reach, start, step, begin, acquire,
}
use black_kernel.Spinlock.Mutex.{IsExclusive, Reach-IsExclusive}

idle : init.places 1 ≡ outside
unfolding init
idle = refl

ready : (move init 1 swapping).places 1 ≡ swapping
unfolding move init
ready = refl

taken-Reach : Reach (try_swap (move init 1 swapping) 1 waiting)
taken-Reach =
    step (move init 1 swapping) (try_swap (move init 1 swapping) 1 waiting)
      (step init (move init 1 swapping) start (begin init 1 idle))
      (acquire (move init 1 swapping) 1 ready)

Reach-IsExclusive_example : IsExclusive (try_swap (move init 1 swapping) 1 waiting)
Reach-IsExclusive_example = Reach-IsExclusive taken-Reach
