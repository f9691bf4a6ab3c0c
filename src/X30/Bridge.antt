-- ===== src/X30/Bridge.antt =====
-- What `X30NavBridge::initialize` hands to the action executor: its warm-up and its sender.
use nav_bridge.Prelude.Int.{pos}
use nav_bridge.X30.Axis.{Floats}
use nav_bridge.X30.Platform.{Platform, IsPlatform}
use nav_bridge.X30.Control.{Config, warmup_control, send_gait_command}
use nav_bridge.X30.Control.Warmup.{warmup_control-ends, send_code-IsLater, send_code-times}
use nav_bridge.X30.Executor.{Callbacks}
use nav_bridge.X30.Executor.Rules.{IsCallbacks}

module _ (p : Platform) (fl : Floats) (cfg : Config) where
  unfoldable pub executor_callbacks : Callbacks
  executor_callbacks = record {
    control_warmup = warmup_control p fl cfg;
    command_sender = send_gait_command p;
  }

  -- On such a platform the bridge's callbacks keep what the executor relies on.
  pub executor_callbacks-IsCallbacks : IsPlatform p → IsCallbacks executor_callbacks
  unfolding executor_callbacks send_gait_command
  executor_callbacks-IsCallbacks ip = record {
    warmup_ends = warmup_control-ends p ip fl cfg;
    sender_later = λ code. send_code-IsLater p ip code (pos 0);
    sender_sends = λ code. send_code-times p code (pos 0);
  }
