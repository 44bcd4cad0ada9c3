-- ===== src/Pid.antt =====
-- srv/pidaim.cpp: the controller by which the server keeps its pace to the pilot's queue. `double` and
-- its operations are a parameter.
pub mod Steady
use the_multi_room_speaker.Base.{Bool, if◌then◌else◌, List, [], ◌∷◌}

pub record Doubles : Type 1 where
  pub carrier : Type 0
  pub plus : carrier → carrier → carrier
  pub minus : carrier → carrier → carrier
  pub times : carrier → carrier → carrier
  pub over : carrier → carrier → carrier
  pub abs : carrier → carrier
  pub lt : carrier → carrier → Bool
  pub nought : carrier
  pub twenty : carrier

pub record PidImpl (d : Doubles) : Type 0 where
  pub dt : d.carrier
  pub max : d.carrier
  pub min : d.carrier
  pub kp : d.carrier
  pub kd : d.carrier
  pub ki : d.carrier
  pub pre_error : d.carrier
  pub integral : d.carrier
  pub prev : d.carrier

-- PIDImpl::PIDImpl, with its arguments in its order.
unfoldable pub new_impl : (d : Doubles) (dt max min kp kd ki : d.carrier) → PidImpl d
new_impl d dt max min kp kd ki = record {
  dt = dt;
  max = max;
  min = min;
  kp = kp;
  kd = kd;
  ki = ki;
  pre_error = d.nought;
  integral = d.nought;
  prev = d.nought;
}

-- PID::PID
unfoldable pub new_pid : (d : Doubles) (dt max min kp ki kd : d.carrier) → PidImpl d
unfolding new_impl
new_pid d dt max min kp ki kd = new_impl d dt max min kp kd ki

-- PID::reset, which keeps the bounds.
unfoldable pub reset_pid : (d : Doubles) (dt kp ki kd : d.carrier) → PidImpl d → PidImpl d
unfolding new_impl
reset_pid d dt kp ki kd p = new_impl d dt p.max p.min kp kd ki

-- "Restrict to max/min"
unfoldable pub restrict : (d : Doubles) (max min output : d.carrier) → d.carrier
restrict d max min output = if d.lt max output then max else if d.lt output min then min else output

-- PIDImpl::calculate
unfoldable pub calculate :
    (d : Doubles) (setpoint pv : d.carrier) → PidImpl d → PidImpl d × d.carrier
unfolding restrict
calculate d setpoint pv p =
    let error = d.minus setpoint pv in
    let pout = d.times p.kp error in
    let integral = d.plus p.integral (d.times error p.dt) in
    let iout = d.times p.ki integral in
    let derivative = d.over (d.minus error p.pre_error) p.dt in
    let dout = d.times p.kd derivative in
    let bounded = restrict d p.max p.min (d.plus (d.plus pout iout) dout) in
    let output = if d.lt d.twenty (d.abs (d.minus bounded p.prev)) then p.prev else bounded in
    (record p { integral = integral; pre_error = error; prev = output }, output)

-- The outputs for one pair of set point and process value after another.
unfoldable pub calculates :
    (d : Doubles) → List (d.carrier × d.carrier) → PidImpl d → List d.carrier
unfolding calculate
calculates d [] p = []
calculates d ((setpoint, pv) ∷ inputs) p =
    let (p', output) = calculate d setpoint pv p in output ∷ calculates d inputs p'
