-- ===== src/Options/Names.antt =====
-- common/globals.c: the names of the facilities and levels of syslog. The numbers are those of
-- syslog.h.
use x_grey.Prelude.{ℕ, List, [], ◌∷◌}
use x_grey.Names.{CharsInt}
use x_grey.Text.Strings.{codes}

abbrev pub log_mail : ℕ
log_mail = 16

abbrev pub log_err : ℕ
log_err = 3

abbrev pub log_info : ℕ
log_info = 6

abbrev pub log_debug : ℕ
log_debug = 7

abbrev pub c_facilities : List CharsInt
c_facilities =
    record { name = codes "AUTH"; value = 80 }
    ∷ record { name = codes "AUTHPRIV"; value = 80 }
    ∷ record { name = codes "CRON"; value = 72 }
    ∷ record { name = codes "DAEMON"; value = 24 }
    ∷ record { name = codes "FTP"; value = 88 }
    ∷ record { name = codes "KERN"; value = 0 }
    ∷ record { name = codes "LOCAL0"; value = 128 }
    ∷ record { name = codes "LOCAL1"; value = 136 }
    ∷ record { name = codes "LOCAL2"; value = 144 }
    ∷ record { name = codes "LOCAL3"; value = 152 }
    ∷ record { name = codes "LOCAL4"; value = 160 }
    ∷ record { name = codes "LOCAL5"; value = 168 }
    ∷ record { name = codes "LOCAL6"; value = 176 }
    ∷ record { name = codes "LOCAL7"; value = 184 }
    ∷ record { name = codes "LPR"; value = 48 }
    ∷ record { name = codes "MAIL"; value = log_mail }
    ∷ record { name = codes "NEWS"; value = 56 }
    ∷ record { name = codes "SYSLOG"; value = 40 }
    ∷ record { name = codes "USER"; value = 8 }
    ∷ record { name = codes "UUCP"; value = 64 }
    ∷ []

abbrev pub c_levels : List CharsInt
c_levels =
    record { name = codes "ALERT"; value = 1 }
    ∷ record { name = codes "CRIT"; value = 2 }
    ∷ record { name = codes "DEBUG"; value = log_debug }
    ∷ record { name = codes "ERR"; value = log_err }
    ∷ record { name = codes "INFO"; value = log_info }
    ∷ record { name = codes "NOTICE"; value = 5 }
    ∷ record { name = codes "WARNING"; value = 4 }
    ∷ []
