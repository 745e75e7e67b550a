-- ===== src/App.antt =====
-- Programs of src/os/app: main.c, duff.c, bs.c, insertsort.c, fibcall.c, lcdnum.c, loop3.c, cover.c and ns.c.
pub mod Main
pub mod MainRun
pub mod Duff
pub mod Search
pub mod SearchLoop
pub mod InsertSort
pub mod Fib
pub mod Lcd
pub mod Loop3
pub mod Cover
pub mod Nested
