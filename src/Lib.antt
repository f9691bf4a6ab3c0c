-- ===== src/Lib.antt =====
-- A verification library of nav_bridge, a ROS 2 bridge between navigation and robots. It models the
-- X30 backend (include/nav_bridge/x30 and src/x30), the Tank backend (include/nav_bridge/tank and
-- src/tank), and of the Cyvet backend the odometry (include/nav_bridge/cyvet/motion_math.hpp), the
-- battery and the queue of commands (src/cyvet/cyvet_backend.cpp).
--
-- The X30 node takes control of the robot over UDP (heartbeats, simple commands), forwards /cmd_vel as
-- axis values from a timer, and runs blocking services (stand, lie, gait, height) that send
-- commands and wait until the robot's own reports show the state. A receive thread records those
-- reports in a store that the services read.
--
-- How the program is modelled:
--  * Prelude: what the modules share. Prelude/Exec.antt is a routine over a state that may leave
--    early (C++ statements with `return` among them), with triples on it.
--  * X30/Protocol.antt, X30/Axis.antt: x30_protocol.hpp (numbers, codes, makeSimpleCommand, speed
--    limits, velocityToAxisValue). Floating point is a parameter.
--  * X30/Store.antt: robot_state_store.hpp.
--  * X30/Platform.antt: `rclcpp::spin` runs services and timer in one thread, whose state is a
--    `World` (the clock, the control flags, the packets sent). The other threads are a `Platform`:
--    what the shared variables hold at each instant, and when a wait or a sleep ends. Theorems hold
--    for every platform, so for every behaviour of the robot; `IsPlatform` is what the C++ library
--    promises of `wait_for` and `sleep_for`, and that a statement lasts a tick of the clock at least.
--  * X30/Control.antt: x30_nav_bridge.cpp, control ownership, evaluateControlPulse, warmupControl,
--    sendCmdVelTick. X30/Control/Warmup.antt and X30/Control/Forwarding.antt have the proofs.
--  * X30/Executor.antt and below: action_executor.cpp. The callbacks of its constructor are a record
--    (`Callbacks`) and what it relies on is `IsCallbacks` (X30/Executor/Rules.antt), which the
--    bridge's own (X30/Bridge.antt) fill.
--  * X30/Gait.antt, X30/Height.antt, X30/Manual.antt: setNavigationGait, setBodyHeight and
--    ensureManualMode. X30/Services.antt: the handlers of the services.
--  * X30/Charge.antt: the states and commands of the charge service, parseChargeCommandParameter and
--    a round of chargeReceiveLoop. X30/Charge/Service.antt: executeChargeCommand, its waits, a round of
--    chargeQueryLoop and the handler; X30/Charge/Service/Reported.antt has the proof. That a wait
--    without a time limit ends, and when, is a parameter.
--  * X30/Tests.antt and below: a robot that goes through its states, and runs of the actions on it.
--  * Backend.antt: robot_backend.hpp, and floating point as a parameter.
--  * Tank/State.antt: tank_backend.cpp, the members of `Impl` and each section that holds its mutex
--    (inhibit, linkFailed, the end of prepare, move, the views and records of the workers).
--    Tank/State/Sections.antt is any order in which the threads take the sections, without the code
--    around them; Tank/State/Commands.antt and Tank/State/Failures.antt have the proofs.
--  * Tank/Process.antt: a thread as a tree of sections and HTTP requests, between which other threads
--    run. Tank/Http.antt: request, sendMove, queryState, queryBrake; jsoncpp is a parameter and the
--    replies of the device are any. Tank/Actions.antt: prepare, ready, stop, disconnect.
--    Tank/Workers.antt: a round of controlLoop, telemetryLoop and rawVelocityLoop.
--    Tank/Process/Trace.antt is a run of one thread with its exchanges, Tank/Http/Shown.antt and
--    Tank/Actions/Confirmed.antt what they show of the device.
--  * Tank/System.antt: the interleavings of the threads as a step relation. One thread at a time holds
--    the mutex `io`; /cmd_vel, the tickets of ready and stop, and the two polling threads come in
--    between. Tank/System/Ownership.antt and below: the invariant of control ownership, by an
--    assertion that each thread keeps (`Wp`). Tank/System/Requests.antt and below: what is asked.
--  * Cyvet/Odometry.antt: ContinuousOdometry of motion_math.hpp, over any floating point.
--  * Cyvet/Battery.antt: updateBattery, and the battery in onMotion and stateLocked; jsoncpp is a
--    parameter.
--  * Cyvet/Queue.antt: submit, inhibit, move, what run takes and the sections in which stand and
--    switchProfile end, as the steps of a relation; what an action does over the SDK is left open.
--    Cyvet/Queue/Stops.antt and Cyvet/Queue/Reaches.antt have the invariant of the stops,
--    Cyvet/Queue/Velocities.antt that of the velocity, Cyvet/Queue/Order.antt the order of the stops.
--  * Tank/Tests.antt and below: a device that answers, and runs of the threads with it.
--
-- The Tank threads need no fuel: a round makes a bounded number of requests. The epoch, a uint64_t,
-- is taken not to wrap around, and so are the generation and the stop requests of Cyvet.
--
-- Loops of the X30 backend recurse on fuel. A retry loop has its time in milliseconds and two more, since each round
-- takes a millisecond; the warm-up has its time in nanoseconds and one more, since each round reads
-- the clock, which moves on. The settle loop of lieDown has no bound in the code, so the polls that are
-- followed are an argument, and so are the rounds of executeChargeCommand.
--
-- Not modelled: logs, and reads of the store that only a log uses; the receive loop and the telemetry; the life cycle of X30; of the Tank backend the
-- validation of its options, its diagnostics, the times between rounds and the callbacks; the D1 Max backend; of the Cyvet backend
-- all but the odometry, the battery and the queue; the ROS nodes; sockets.
pub mod Prelude
pub mod Backend
pub mod Cyvet
pub mod Tank
pub mod X30
