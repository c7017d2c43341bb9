-- ===== src/Signal/Tests.antt =====
-- Tests of the signals of kernel/exit.c and kernel/signal.c.
use linux.Base.{◌≡◌, refl, inl, arith, false}
use linux.Base.Bits.{bit}
use linux.Sched.{interruptible}
use linux.Signal.{Receiver, deliver}
use linux.Base.{replicate, List, set, get_or}
use linux.Signal.Handlers.{
  Action, no_action, Replaced, IsStored, stored_action, sys_sigaction, sys_sigaction-Replaced,
}
use linux.Signal.Stop.{IsExclusive, deliver-IsExclusive}

-- A task with SIGSTOP pending.
abbrev stopping : Receiver
stopping = record {
  pid = 7;
  pgrp = 7;
  euid = 100;
  state = interruptible;
  signal = 0x40000;
  exit_code = 0;
  ptraced = false;
  parent = 1;
}

deliver-IsExclusive_example :
    (bit (deliver 18 stopping).signal 17 ≡ 1) × IsExclusive (deliver 18 stopping).signal
unfolding bit
deliver-IsExclusive_example = deliver-IsExclusive 18 stopping (omega arith) (inl refl)

abbrev actions : List Action
actions = replicate 32 no_action

abbrev action : Action
action = record { handler = 0x1000; mask = 1; flags = 0; restorer = 0x2000 }

sys_sigaction-Replaced_example :
    (new : Action) × Replaced 2 new actions (set actions 1 (stored_action 2 action))
    × (no_action ≡ get_or actions 1 no_action)
    × IsStored 2 action new
unfolding sys_sigaction
sys_sigaction-Replaced_example =
    sys_sigaction-Replaced 2 action no_action actions (set actions 1 (stored_action 2 action)) refl
      refl
