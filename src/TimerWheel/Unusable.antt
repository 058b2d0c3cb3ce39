-- ===== src/TimerWheel/Unusable.antt =====
-- timer/timer_wheel/timer_wheel.cpp and timer_wheel.h: what a program can do with a time wheel.
