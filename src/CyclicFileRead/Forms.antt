-- ===== src/CyclicFileRead/Forms.antt =====
-- The labels of the lines, from common.c: each stands in front of a value, the last behind it.
use linux_system_monitoring.Base.{List, [], ◌∷◌, Bytes, codes}

abbrev pub stat_form : List Bytes
stat_form =
    codes "proc-stat,core=cpu"
    ∷ codes " user="
    ∷ codes ",nice="
    ∷ codes ",system="
    ∷ codes ",idle="
    ∷ codes ",iowait="
    ∷ codes ",irq="
    ∷ codes ",softirq="
    ∷ codes ",steal="
    ∷ codes ",guest="
    ∷ codes ",guest_nice="
    ∷ codes ",ctext="
    ∷ codes " "
    ∷ []

abbrev pub net_form1 : List Bytes
net_form1 =
    codes "proc-net-dev,interface="
    ∷ codes ",direction=receive bytes="
    ∷ codes ",packets="
    ∷ codes ",errs="
    ∷ codes ",drop="
    ∷ codes ",fifo="
    ∷ codes ",frame="
    ∷ codes ",compressed="
    ∷ codes ",multicast="
    ∷ codes " "
    ∷ []

abbrev pub net_form2 : List Bytes
net_form2 =
    codes "proc-net-dev,interface="
    ∷ codes ",direction=transmit bytes="
    ∷ codes ",packets="
    ∷ codes ",errs="
    ∷ codes ",drop="
    ∷ codes ",fifo="
    ∷ codes ",colls="
    ∷ codes ",carrier="
    ∷ codes ",compressed="
    ∷ codes " "
    ∷ []

abbrev pub disk_form : List Bytes
disk_form =
    codes "proc-diskstats,major="
    ∷ codes ",minor="
    ∷ codes ",name="
    ∷ codes " reads_completed="
    ∷ codes ",reads_merged="
    ∷ codes ",sectors_read="
    ∷ codes ",time_spent_reading="
    ∷ codes ",writes_completed="
    ∷ codes ",writes_merged="
    ∷ codes ",sectors_written="
    ∷ codes ",time_spent_writing="
    ∷ codes ",i/os_currently_in_progress="
    ∷ codes ",time_spent_doing_i/os="
    ∷ codes ",weighted_time_spent_doing_i/os="
    ∷ codes ",successful_discards="
    ∷ codes ",merged_discards="
    ∷ codes ",sectors_discarded="
    ∷ codes ",time_spent_discarding="
    ∷ codes ",successful_flush_requests="
    ∷ codes ",time_spent_flushing="
    ∷ codes " "
    ∷ []

abbrev pub pstat_form : List Bytes
pstat_form =
    codes "proc-pid-stat,pid="
    ∷ codes " comm="
    ∷ codes ",state="
    ∷ codes ",ppid="
    ∷ codes ",pgrp="
    ∷ codes ",session="
    ∷ codes ",tty_nr="
    ∷ codes ",tpgid="
    ∷ codes ",flags="
    ∷ codes ",minflt="
    ∷ codes ",cminflt="
    ∷ codes ",majflt="
    ∷ codes ",cmajflt="
    ∷ codes ",utime="
    ∷ codes ",stime="
    ∷ codes ",cutime="
    ∷ codes ",cstime="
    ∷ codes ",priority="
    ∷ codes ",nice="
    ∷ codes ",num_threads="
    ∷ codes ",itrealvalue="
    ∷ codes ",starttime="
    ∷ codes ",vsize="
    ∷ codes ",rss="
    ∷ codes ",rsslime="
    ∷ codes ",startcode="
    ∷ codes ",endcode="
    ∷ codes ",startstack="
    ∷ codes ",kstkesp="
    ∷ codes ",kstkeip="
    ∷ codes ",signal="
    ∷ codes ",blocked="
    ∷ codes ",sigignore="
    ∷ codes ",sigcatch="
    ∷ codes ",wchan="
    ∷ codes ",nswap="
    ∷ codes ",cnswap="
    ∷ codes ",exit_signal="
    ∷ codes ",processor="
    ∷ codes ",rt_priority="
    ∷ codes ",policy="
    ∷ codes ",delayacct_blkio_ticks="
    ∷ codes ",guest_time="
    ∷ codes ",cguest_time="
    ∷ codes ",start_data="
    ∷ codes ",end_data="
    ∷ codes ",start_brk="
    ∷ codes ",arg_start="
    ∷ codes ",arg_end="
    ∷ codes ",env_start="
    ∷ codes ",env_end="
    ∷ codes ",exit_code="
    ∷ codes " "
    ∷ []

abbrev pub pstatm_form : List Bytes
pstatm_form =
    codes "proc-pid-statm,pid="
    ∷ codes " size="
    ∷ codes ",resident="
    ∷ codes ",shared="
    ∷ codes ",text="
    ∷ codes ",lib="
    ∷ codes ",data="
    ∷ codes ",dt="
    ∷ codes " "
    ∷ []

abbrev pub io_form : List Bytes
io_form =
    codes "proc-pid-io,pid="
    ∷ codes " rchar="
    ∷ codes ",wchar="
    ∷ codes ",syscr="
    ∷ codes ",syscw="
    ∷ codes ",read_bytes="
    ∷ codes ",write_bytes="
    ∷ codes ",cancelled_write_bytes="
    ∷ codes " "
    ∷ []
